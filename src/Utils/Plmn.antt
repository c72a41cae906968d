-- ===== src/Utils/Plmn.antt =====
-- The numbers of networks (PLMN) in pySim/utils.py. `h2i` of the package pyosmocom, which reads
-- hexadecimal text as numbers, is a parameter.
pub mod RoundTrip
use zk_e_sim_smdp.Common.{
  ℕ, zero, suc, ◌+◌, ◌*◌, ◌/◌, ◌%◌, String, Bool, true, false, not, ◌&&◌, ◌||◌, List, [], ◌∷◌, ◌++◌,
  Option, none, some, length, take, drop, get_elem?, ltb, ◌==◌, if◌then◌else◌,
}
use zk_e_sim_smdp.Common.Outcome.{Outcome, ok, err, index_error, expect, ◌>>=◌}
use zk_e_sim_smdp.Common.Hex.{Text}
use zk_e_sim_smdp.Utils.Strings.{is_white, strip, upper}

-- `text[i]`
unfoldable pub char_at : Text → ℕ → Outcome ℕ
char_at text i = expect (get_elem? text i) index_error

-- The codes, padded on the left with zeros and on the right with F.
unfoldable pub pad_mnc : Text → Text
pad_mnc [] = 70 ∷ 70 ∷ 70 ∷ []
pad_mnc (c ∷ []) = 48 ∷ c ∷ 70 ∷ []
pad_mnc (c ∷ d ∷ []) = c ∷ d ∷ 70 ∷ []
pad_mnc (c ∷ d ∷ e ∷ mnc) = c ∷ d ∷ e ∷ mnc

unfoldable pub pad_mcc : Text → Text
pad_mcc [] = 70 ∷ 70 ∷ 70 ∷ []
pad_mcc (c ∷ []) = 48 ∷ 48 ∷ c ∷ []
pad_mcc (c ∷ d ∷ []) = 48 ∷ c ∷ d ∷ []
pad_mcc (c ∷ d ∷ e ∷ mcc) = c ∷ d ∷ e ∷ mcc

-- The digits in the order of the encoding.
unfoldable pub arrange : Text → Text → Outcome Text
unfolding char_at
arrange mcc mnc = do
  m1 ← char_at mcc 1
  m0 ← char_at mcc 0
  n2 ← char_at mnc 2
  m2 ← char_at mcc 2
  n1 ← char_at mnc 1
  n0 ← char_at mnc 0
  ok (m1 ∷ m0 ∷ n2 ∷ m2 ∷ n1 ∷ n0 ∷ [])

unfoldable pub enc_plmn : Text → Text → Outcome Text
enc_plmn mcc mnc = arrange (pad_mcc (strip is_white mcc)) (pad_mnc (strip is_white mnc))

-- `strip("F")`
abbrev pub is_f : ℕ → Bool
is_f c = c == 70

unfoldable pub dec_mcc_from_plmn_str : Text → Outcome Text
unfolding char_at
dec_mcc_from_plmn_str plmn = do
  digit1 ← char_at plmn 1
  digit2 ← char_at plmn 0
  digit3 ← char_at plmn 3
  ok (strip is_f (upper (digit1 ∷ digit2 ∷ digit3 ∷ [])))

unfoldable pub dec_mnc_from_plmn_str : Text → Outcome Text
unfolding char_at
dec_mnc_from_plmn_str plmn = do
  digit1 ← char_at plmn 5
  digit2 ← char_at plmn 4
  digit3 ← char_at plmn 2
  ok (strip is_f (upper (digit1 ∷ digit2 ∷ digit3 ∷ [])))

-- The two codes of `res`.
unfoldable pub dec_plmn : Text → Outcome (Text × Text)
dec_plmn threehexbytes = do
  mcc ← dec_mcc_from_plmn_str threehexbytes
  mnc ← dec_mnc_from_plmn_str threehexbytes
  ok (mcc, mnc)

-- `dec_xplmn`, whose list of access technologies is always empty
unfoldable pub dec_xplmn : Text → Outcome (Text × Text)
unfolding dec_plmn
dec_xplmn threehexbytes = dec_plmn (take 6 threehexbytes)

-- A digit of 15 stands for none.
unfoldable pub digit_or_zero : ℕ → ℕ
digit_or_zero digit = if digit == 15 then 0 else digit

unfoldable pub derive_mcc : ℕ → ℕ → ℕ → ℕ
unfolding digit_or_zero
derive_mcc digit1 digit2 digit3 =
    digit_or_zero digit1 * 100 + digit_or_zero digit2 * 10 + digit_or_zero digit3

unfoldable pub derive_mnc : ℕ → ℕ → ℕ → ℕ
unfolding digit_or_zero
derive_mnc digit1 digit2 digit3 =
    if digit3 == 15
    then digit_or_zero digit1 * 10 + digit_or_zero digit2
    else derive_mcc digit1 digit2 digit3

module _ (h2i : Text → Outcome (List ℕ)) where
  -- `ia[i]`
  byte_at : List ℕ → ℕ → Outcome ℕ
  byte_at ia i = expect (get_elem? ia i) index_error

  -- `x & 0x0F` is the remainder by 16, and `(x & 0xF0) >> 4` the next digit
  unfoldable pub dec_mcc_from_plmn : Text → Outcome ℕ
  unfolding byte_at
  dec_mcc_from_plmn plmn = do
    ia ← h2i plmn
    first ← byte_at ia 0
    second ← byte_at ia 1
    let digit1 = first % 16
    let digit2 = first / 16 % 16
    let digit3 = second % 16
    ok (
        if digit3 == 15 && digit2 == 15 && digit1 == 15
        then 4095
        else derive_mcc digit1 digit2 digit3)

  unfoldable pub dec_mnc_from_plmn : Text → Outcome ℕ
  unfolding byte_at
  dec_mnc_from_plmn plmn = do
    ia ← h2i plmn
    third ← byte_at ia 2
    second ← byte_at ia 1
    let digit1 = third % 16
    let digit2 = third / 16 % 16
    let digit3 = second / 16 % 16
    ok (
        if digit3 == 15 && digit2 == 15 && digit1 == 15
        then 4095
        else derive_mnc digit1 digit2 digit3)
