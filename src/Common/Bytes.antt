-- ===== src/Common/Bytes.antt =====
-- Byte strings as lists of numbers: comparison, and numbers in big-endian order.
use Prim.Native.Nat.{ℕ, zero, suc, ◌+◌, ◌*◌, ◌/◌, ◌%◌, ◌<◌}
use mathlib.Core.Path.{◌≡◌, refl}
use mathlib.Core.Bool.{Bool, true, false, ◌&&◌}
use mathlib.Core.Logic.{◌↔◌}
use mathlib.Core.List.{List, [], ◌∷◌}
use native.Mathlib.Omega.{arith}
use zk_e_sim_smdp.Common.Tests.{ltb, ◌==◌, if◌then◌else◌}
use zk_e_sim_smdp.Common.Lists.{length}

abbrev pub Bytes : Type 0
Bytes = List ℕ

abbrev pub IsByte : ℕ → Type 0
IsByte b = b < 256

-- `a == b` on bytes
unfoldable pub beq : Bytes → Bytes → Bool
beq [] [] = true
beq [] (y ∷ ys) = false
beq (x ∷ xs) [] = false
beq (x ∷ xs) (y ∷ ys) = x == y && beq xs ys

-- `a < b` on bytes: lexicographic, a proper prefix is smaller
unfoldable pub blt : Bytes → Bytes → Bool
blt [] [] = false
blt [] (y ∷ ys) = true
blt (x ∷ xs) [] = false
blt (x ∷ xs) (y ∷ ys) = if ltb x y then true else x == y && blt xs ys

pub beq→eq : (a b : Bytes) → beq a b ≡ true → a ≡ b
unfolding beq
beq→eq [] [] h = refl
beq→eq [] (y ∷ ys) h = cc
beq→eq (x ∷ xs) [] h = cc
beq→eq (x ∷ xs) (y ∷ ys) h = ground (arith, beq→eq xs ys)

pub beq_refl : (a : Bytes) → beq a a ≡ true
unfolding beq
beq_refl [] = refl
beq_refl (x ∷ xs) = ground (arith, beq_refl xs)

pub beq_iff : (a b : Bytes) → (beq a b ≡ true) ↔ (a ≡ b)
beq_iff a b = (beq→eq a b, λ e. rw e (beq_refl b))

-- Of two byte strings neither of which is smaller, both are the same.
pub blt_total : (a b : Bytes) → blt a b ≡ false → blt b a ≡ false → a ≡ b
unfolding blt
blt_total [] [] h k = refl
blt_total [] (y ∷ ys) h k = cc
blt_total (x ∷ xs) [] h k = cc
blt_total (x ∷ xs) (y ∷ ys) h k = ground (arith, blt_total xs ys)

pub blt_irrefl : (a : Bytes) → blt a a ≡ false
unfolding blt
blt_irrefl [] = refl
blt_irrefl (x ∷ xs) = ground (arith, blt_irrefl xs)

pub blt_asym : (a b : Bytes) → blt a b ≡ true → blt b a ≡ false
unfolding blt
blt_asym [] [] h = refl
blt_asym [] (y ∷ ys) h = refl
blt_asym (x ∷ xs) [] h = cc
blt_asym (x ∷ xs) (y ∷ ys) h = ground (arith, blt_asym xs ys)

-- The last `w` base-256 digits of `n`, most significant first, in front of `acc`.
unfoldable pub digits_be : ℕ → ℕ → Bytes → Bytes
digits_be zero n acc = acc
digits_be (suc w) n acc = digits_be w (n / 256) ((n % 256) ∷ acc)

-- `int.from_bytes(bs, 'big')`
unfoldable pub from_bytes_be : ℕ → Bytes → ℕ
from_bytes_be acc [] = acc
from_bytes_be acc (b ∷ bs) = from_bytes_be (acc * 256 + b) bs

pub length-digits_be : (w n : ℕ) (acc : Bytes) → length (digits_be w n acc) ≡ w + length acc
unfolding digits_be
length-digits_be zero n acc = omega arith
length-digits_be (suc w) n acc = omega (arith, length-digits_be w (n / 256) ((n % 256) ∷ acc))
