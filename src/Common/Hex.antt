-- ===== src/Common/Hex.antt =====
-- Hexadecimal text, as `bytes.hex` writes and `bytes.fromhex` reads it. A text is the list of its
-- code points.
use Prim.Native.Nat.{ℕ, ◌+◌, ◌-◌, ◌*◌, ◌/◌, ◌%◌, ◌<◌}
use mathlib.Core.Path.{◌≡◌, refl, sym, ap, ◌∙◌}
use mathlib.Core.Bool.{Bool, false, ◌&&◌, ◌||◌}
use mathlib.Core.Option.{Option, none, some}
use mathlib.Core.List.{List, [], ◌∷◌}
use native.Mathlib.Omega.{arith}
use zk_e_sim_smdp.Common.Tests.{leb, ltb, ◌==◌, if◌then◌else◌}
use zk_e_sim_smdp.Common.Lists.{All}
use zk_e_sim_smdp.Common.Bytes.{Bytes, IsByte}

abbrev pub Text : Type 0
Text = List ℕ

unfoldable pub hex_digit : ℕ → ℕ
hex_digit n = if ltb n 10 then n + 48 else n + 87

unfoldable pub digit_value : ℕ → Option ℕ
digit_value c =
    if leb 48 c && leb c 57
    then some (c - 48)
    else if leb 97 c && leb c 102
    then some (c - 87)
    else if leb 65 c && leb c 70
    then some (c - 55)
    else none

-- `b.hex()`
unfoldable pub to_hex : Bytes → Text
to_hex [] = []
to_hex (b ∷ bs) = hex_digit (b / 16) ∷ hex_digit (b % 16) ∷ to_hex bs

-- the white space of ASCII
abbrev is_space : ℕ → Bool
is_space c = c == 32 || (leb 9 c && leb c 13)

abbrev byte_then : Option ℕ → Option ℕ → Option Bytes → Option Bytes
byte_then (some hi) (some lo) (some bs) = some ((hi * 16 + lo) ∷ bs)
byte_then _ _ _ = none

-- `bytes.fromhex(s)`: pairs of digits, white space between pairs is skipped; `none` is ValueError
unfoldable pub from_hex : Text → Option Bytes
unfolding digit_value
from_hex [] = some []
from_hex (c ∷ []) = if is_space c then some [] else none
from_hex (c ∷ d ∷ s) =
    let skip = from_hex (d ∷ s) in
    let pair = byte_then (digit_value c) (digit_value d) (from_hex s) in
    if is_space c then skip else pair

pub digit_value-hex_digit : (n : ℕ) → n < 16 → digit_value (hex_digit n) ≡ some n
unfolding digit_value hex_digit
digit_value-hex_digit n h = ground arith

hex_digit-not-space : (n : ℕ) → n < 16 → is_space (hex_digit n) ≡ false
unfolding hex_digit
hex_digit-not-space n h = ground arith

-- One pair of digits is one byte.
from_hex_pair :
    (hi lo : ℕ) (s : Text) (bs : Bytes)
    → hi < 16
    → lo < 16
    → from_hex s ≡ some bs
    → from_hex (hex_digit hi ∷ hex_digit lo ∷ s) ≡ some ((hi * 16 + lo) ∷ bs)
unfolding from_hex
from_hex_pair hi lo s bs hh hl h =
    rw (hex_digit-not-space hi hh, digit_value-hex_digit hi hh, digit_value-hex_digit lo hl, h)

-- `bytes.fromhex(b.hex())` gives back the bytes.
pub from_hex-to_hex : (bs : Bytes) → All IsByte bs → from_hex (to_hex bs) ≡ some bs
unfolding to_hex
from_hex-to_hex [] h = unfold from_hex in refl
from_hex-to_hex (b ∷ bs) (hb, hbs) =
    from_hex_pair (b / 16) (b % 16) (to_hex bs) bs (omega arith) (omega arith)
      (from_hex-to_hex bs hbs)
    ∙ ap (λ (x : ℕ). some (x ∷ bs)) (omega arith)

-- `b.hex()` tells byte strings apart.
pub to_hex_injective : (a b : Bytes) → All IsByte a → All IsByte b → to_hex a ≡ to_hex b → a ≡ b
to_hex_injective a b ha hb e =
    let same : some a ≡ some b =
      sym (from_hex-to_hex a ha) ∙ ap from_hex e ∙ from_hex-to_hex b hb in
    cc
