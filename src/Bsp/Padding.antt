-- ===== src/Bsp/Padding.antt =====
-- Padding: its length, and that `_unpad` takes off what `_pad_to_multiple` put on.
use zk_e_sim_smdp.Common.{
  ℕ, zero, suc, ◌+◌, ◌-◌, ◌*◌, ◌/◌, ◌%◌, ◌≡◌, refl, some, [], ◌∷◌, ◌++◌, length, length-append,
  length-replicate, replicate, arith,
}
use zk_e_sim_smdp.Common.Outcome.{ok}
use zk_e_sim_smdp.Common.Bytes.{Bytes}
use zk_e_sim_smdp.Bsp.{get_padding, pad_to_multiple, rstrip_zeros, split_last, unpad}

-- Padding adds 1 to 16 bytes, up to the next multiple of the block size.
pub length-pad_to_multiple :
    (text : Bytes) → length (pad_to_multiple text 16) ≡ 16 * (length text / 16) + 16
unfolding pad_to_multiple get_padding
length-pad_to_multiple text =
    rw length-append (ground (arith, length-replicate (16 - (length text + 1) % 16) zero))

rstrip_zeros-replicate : (n : ℕ) → rstrip_zeros (replicate n 0) ≡ []
unfolding rstrip_zeros
rstrip_zeros-replicate zero = refl
rstrip_zeros-replicate (suc n) = rw (rstrip_zeros-replicate n, rstrip_zeros)

marked : (n : ℕ) → rstrip_zeros (0x80 ∷ replicate n 0) ≡ 0x80 ∷ []
unfolding rstrip_zeros
marked n = ground (arith, rstrip_zeros-replicate n)

rstrip_zeros-append :
    (text tail : Bytes) (x : ℕ)
    → rstrip_zeros tail ≡ x ∷ []
    → rstrip_zeros (text ++ tail) ≡ text ++ (x ∷ [])
unfolding rstrip_zeros
rstrip_zeros-append [] tail x h = h
rstrip_zeros-append (y ∷ []) tail x h = ground (arith, h)
rstrip_zeros-append (y ∷ z ∷ ys) tail x h = ground (arith, rstrip_zeros-append (z ∷ ys) tail x h)

split_last-append : (text : Bytes) (x : ℕ) → split_last (text ++ (x ∷ [])) ≡ some (text, x)
unfolding split_last
split_last-append [] x = refl
split_last-append (y ∷ []) x = refl
split_last-append (y ∷ z ∷ ys) x = ground (arith, split_last-append (z ∷ ys) x)

padding_marked : (n : ℕ) → rstrip_zeros (get_padding n 16 0) ≡ 0x80 ∷ []
unfolding get_padding
padding_marked n = ground (arith, marked 0, marked (16 - (n + 1) % 16))

padded_stripped : (text : Bytes) → rstrip_zeros (pad_to_multiple text 16) ≡ text ++ (0x80 ∷ [])
unfolding pad_to_multiple
padded_stripped text =
    rstrip_zeros-append text (get_padding (length text) 16 0) 0x80 (padding_marked (length text))

-- `_unpad` gives back every text that was padded, whatever bytes it ends in.
pub unpad-pad_to_multiple : (text : Bytes) → unpad (pad_to_multiple text 16) ≡ ok text
unfolding unpad
unpad-pad_to_multiple text = rw (padded_stripped text, split_last-append text 0x80)
