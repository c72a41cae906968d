-- ===== src/Utils/Luhn.antt =====
-- The Luhn check digit and the ICCIDs of pySim/utils.py. A number is its text.
pub mod Sums
pub mod Digits
pub mod Errors
pub mod Iccid
use zk_e_sim_smdp.Common.{
  ℕ, zero, suc, ◌+◌, ◌-◌, ◌*◌, ◌/◌, ◌%◌, Bool, true, false, not, ◌&&◌, List, [], ◌∷◌, ◌++◌, Option,
  none, some, map, length, drop, ltb, leb, ◌==◌, if◌then◌else◌,
}
use zk_e_sim_smdp.Common.Outcome.{
  Outcome, ok, err, Raised, value_error, index_error, guard, expect, ◌>>=◌, ◌>>◌,
}
use zk_e_sim_smdp.Common.Hex.{Text}

-- The zeros of the decimal digits of Unicode behind ASCII: each is followed by the other nine.
abbrev other_zeros : List ℕ
other_zeros =
    0x660 ∷ 0x6f0 ∷ 0x7c0 ∷ 0x966 ∷ 0x9e6 ∷ 0xa66 ∷ 0xae6 ∷ 0xb66 ∷ 0xbe6 ∷ 0xc66 ∷ 0xce6 ∷ 0xd66
    ∷ 0xde6 ∷ 0xe50 ∷ 0xed0 ∷ 0xf20 ∷ 0x1040 ∷ 0x1090 ∷ 0x17e0 ∷ 0x1810 ∷ 0x1946 ∷ 0x19d0 ∷ 0x1a80
    ∷ 0x1a90 ∷ 0x1b50 ∷ 0x1bb0 ∷ 0x1c40 ∷ 0x1c50 ∷ 0xa620 ∷ 0xa8d0 ∷ 0xa900 ∷ 0xa9d0 ∷ 0xa9f0
    ∷ 0xaa50 ∷ 0xabf0 ∷ 0xff10 ∷ 0x104a0 ∷ 0x10d30 ∷ 0x11066 ∷ 0x110f0 ∷ 0x11136 ∷ 0x111d0 ∷ 0x112f0
    ∷ 0x11450 ∷ 0x114d0 ∷ 0x11650 ∷ 0x116c0 ∷ 0x11730 ∷ 0x118e0 ∷ 0x11950 ∷ 0x11c50 ∷ 0x11d50
    ∷ 0x11da0 ∷ 0x16a60 ∷ 0x16ac0 ∷ 0x16b50 ∷ 0x1d7ce ∷ 0x1d7d8 ∷ 0x1d7e2 ∷ 0x1d7ec ∷ 0x1d7f6
    ∷ 0x1e140 ∷ 0x1e2f0 ∷ 0x1e950 ∷ 0x1fbf0 ∷ []

unfoldable pub digit_behind : List ℕ → ℕ → Outcome ℕ
digit_behind [] c = err value_error
digit_behind (zero_ ∷ zeros) c =
    let others = digit_behind zeros c in
    if leb zero_ c && ltb c (zero_ + 10) then ok (c - zero_) else others

-- `int(c)` of one character, of any script
unfoldable pub int_of : ℕ → Outcome ℕ
int_of c =
    let other = digit_behind other_zeros c in
    if leb 48 c && leb c 57 then ok (c - 48) else if ltb c 128 then err value_error else other

-- `list(map(int, text))`
unfoldable pub digits_of : Text → Outcome (List ℕ)
unfolding int_of
digits_of [] = ok []
digits_of (c ∷ text) = int_of c >>= λ d. digits_of text >>= λ ds. ok (d ∷ ds)

abbrev pub sum : List ℕ → ℕ
sum [] = 0
sum (d ∷ ds) = d + sum ds

unfoldable pub backwards : List ℕ → List ℕ
backwards [] = []
backwards (d ∷ ds) = backwards ds ++ d ∷ []

-- Every other digit of a list that runs backwards: `num[::-2]`, and without its first `num[-2::-2]`.
unfoldable pub every_other : List ℕ → List ℕ
every_other [] = []
every_other (d ∷ []) = d ∷ []
every_other (d ∷ e ∷ ds) = d ∷ every_other ds

-- `sum(divmod(d * 2, 10))`
unfoldable pub doubled : ℕ → ℕ
doubled d = d * 2 / 10 + d * 2 % 10

-- `10 - sum(...) % 10`, with 10 as 0
unfoldable pub check_digit : List ℕ → ℕ
unfolding backwards every_other doubled
check_digit num =
    let from_end = backwards num in
    let digit =
      10 - (sum (every_other (drop 1 from_end)) + sum (map doubled (every_other from_end))) % 10 in
    if digit == 10 then 0 else digit

unfoldable pub calculate_luhn : Text → Outcome ℕ
calculate_luhn cc = digits_of cc >>= λ num. ok (check_digit num)

-- `digits[:-1]` and `digits[-1]`
unfoldable pub split_end : Text → Option (Text × ℕ)
split_end [] = none
split_end (c ∷ text) = elim (split_end text) [ none ↦ some ([], c) | some (r, l) ↦ some (c ∷ r, l) ]

unfoldable pub verify_luhn : Text → Outcome (Unit {0})
verify_luhn digits = do
  (front, last) ← expect (split_end digits) index_error
  cd ← calculate_luhn front
  guard (cd + 48 == last) value_error

-- `iccid += str(calculate_luhn(iccid))`
unfoldable pub add_luhn : Text → Outcome Text
add_luhn iccid = calculate_luhn iccid >>= λ cd. ok (iccid ++ (cd + 48) ∷ [])

unfoldable pub is_value_error : Raised → Bool
is_value_error value_error = true
is_value_error _ = false

-- `except ValueError` of the check of 19 digits
unfoldable pub keep_or_add : Text → Outcome (Unit {0}) → Outcome Text
unfolding is_value_error
keep_or_add iccid (ok checked) = ok iccid
keep_or_add iccid (err e) = if is_value_error e then add_luhn iccid else err e

-- What is done with 18 digits, and with those of 20 and 19.
unfoldable pub complete_iccid : Text → Outcome Text
complete_iccid iccid = if length iccid == 18 then add_luhn iccid else ok iccid

unfoldable pub check_iccid : Text → Outcome Text
check_iccid iccid =
    if length iccid == 20
    then (verify_luhn iccid >> ok iccid)
    else if length iccid == 19
    then keep_or_add iccid (verify_luhn iccid)
    else ok iccid

unfoldable pub sanitize_iccid : Text → Outcome Text
sanitize_iccid iccid = do
  guard (not (ltb (length iccid) 18)) value_error
  guard (not (ltb 20 (length iccid))) value_error
  completed ← complete_iccid iccid
  check_iccid completed
