-- ===== src/Utils/Imsi.antt =====
-- IMSI and ICCID encodings of pySim/utils.py. `swap_nibbles`, `rpad` and `half_round_up` of the
-- package pyosmocom are parameters.
pub mod RoundTrip
use zk_e_sim_smdp.Common.{
  ℕ, zero, suc, ◌+◌, ◌-◌, ◌*◌, ◌/◌, ◌%◌, ◌<◌, ◌≡◌, Bool, true, false, not, List, [], ◌∷◌, ◌++◌,
  Option, none, some, length, take, drop, replicate, ltb, ◌==◌, if◌then◌else◌,
}
use zk_e_sim_smdp.Common.Outcome.{Outcome, ok, err, value_error, expect, ◌>>=◌}
use zk_e_sim_smdp.Common.Hex.{Text, hex_digit, digit_value}
use zk_e_sim_smdp.Utils.Strings.{strip, rstrip}
use zk_e_sim_smdp.Utils.Luhn.{int_of}

pub record Nibbles : Type 0 where
  pub swap_nibbles : Text → Text
  pub rpad : Text → ℕ → Text
  pub half_round_up : ℕ → ℕ

-- What their documentation says of them.
pub record NibblesLaws (n : Nibbles) : Type 0 where
  pub swap_nibbles_nil : n.swap_nibbles [] ≡ []
  pub swap_nibbles_cons :
      (c d : ℕ) (t : Text) → n.swap_nibbles (c ∷ d ∷ t) ≡ d ∷ c ∷ n.swap_nibbles t
  pub rpad_lem : (t : Text) (l : ℕ) → n.rpad t l ≡ t ++ replicate (l - length t) 102
  pub half_round_up_lem : (k : ℕ) → n.half_round_up k ≡ (k + 1) / 2

-- `%x`, on fuel
unfoldable pub hex_of : ℕ → ℕ → Text
hex_of zero k = hex_digit (k % 16) ∷ []
hex_of (suc fuel) k =
    let front = hex_of fuel (k / 16) in
    if ltb k 16 then hex_digit k ∷ [] else front ++ hex_digit (k % 16) ∷ []

-- `%02x`
unfoldable pub hex_byte : ℕ → Text
unfolding hex_of
hex_byte k = if ltb k 16 then 48 ∷ hex_digit k ∷ [] else hex_of k k

abbrev pub is_filler : ℕ → Bool
is_filler c = c == 102

-- `int(ef[0:2], 16)` of two hexadecimal digits; a sign or white space in them is refused
unfoldable pub length_byte : Text → Outcome ℕ
length_byte (c ∷ d ∷ ef) = do
  high ← expect (digit_value c) value_error
  low ← expect (digit_value d) value_error
  ok (high * 16 + low)
length_byte _ = err value_error

module _ (n : Nibbles) where
  open n use {swap_nibbles, rpad, half_round_up}

  unfoldable pub enc_imsi : Text → Text
  unfolding hex_byte
  enc_imsi imsi =
      let l = half_round_up (length imsi + 1) in
      let oe = length imsi % 2 in hex_byte l ++ swap_nibbles (hex_digit (oe * 8 + 1) ∷ rpad imsi 15)

  -- The comparison of the lengths: `l` is twice the length byte less one, and one less again for an
  -- even number of digits.
  unfoldable pub imsi_of : ℕ → Text → Outcome (Option Text)
  imsi_of l [] = ok none
  imsi_of l (c ∷ imsi) = int_of c >>= λ digit.
      let size = length (c ∷ imsi) in
      let oe = digit / 8 % 2 in
      let expected = if oe == 1 then size else size + 1 in
      ok (if l * 2 == expected then some imsi else none)

  unfoldable pub dec_imsi : Text → Outcome (Option Text)
  unfolding length_byte imsi_of
  dec_imsi ef =
      if ltb (length ef) 4
      then ok none
      else (length_byte ef >>= λ l. imsi_of l (rstrip is_filler (swap_nibbles (drop 2 ef))))

  unfoldable pub dec_iccid : Text → Text
  dec_iccid ef = strip is_filler (swap_nibbles ef)

  unfoldable pub enc_iccid : Text → Text
  enc_iccid iccid = swap_nibbles (rpad iccid 20)
