-- ===== src/Utils/Strings.antt =====
-- Python's string methods that pySim/utils.py uses, on ASCII text.
use zk_e_sim_smdp.Common.{
  ℕ, zero, suc, ◌+◌, ◌-◌, ◌/◌, ◌%◌, ◌++◌, ltb, ◌≡◌, refl, Bool, true, false, ◌&&◌, ◌||◌, [], ◌∷◌,
  All, leb, if◌then◌else◌, arith,
}
use zk_e_sim_smdp.Common.Hex.{Text}

-- The white space of ASCII, as `str.isspace` has it.
unfoldable pub is_white : ℕ → Bool
is_white c = (leb 9 c && leb c 13) || (leb 28 c && leb c 32)

unfoldable pub is_digit : ℕ → Bool
is_digit c = leb 48 c && leb c 57

-- `text.lstrip(...)` and `text.rstrip(...)`, by a test on characters
unfoldable pub lstrip : (ℕ → Bool) → Text → Text
lstrip p [] = []
lstrip p (c ∷ text) = let rest = lstrip p text in if p c then rest else c ∷ text

abbrev cons_unless : Bool → ℕ → Text → Text
cons_unless b c [] = if b then [] else c ∷ []
cons_unless b c (d ∷ text) = c ∷ d ∷ text

unfoldable pub rstrip : (ℕ → Bool) → Text → Text
rstrip p [] = []
rstrip p (c ∷ text) = cons_unless (p c) c (rstrip p text)

unfoldable pub strip : (ℕ → Bool) → Text → Text
unfolding lstrip rstrip
strip p text = rstrip p (lstrip p text)

-- `text.upper()` and `text.lower()`
unfoldable pub upper_char : ℕ → ℕ
upper_char c = if leb 97 c && leb c 122 then c - 32 else c

unfoldable pub lower_char : ℕ → ℕ
lower_char c = if leb 65 c && leb c 90 then c + 32 else c

unfoldable pub upper : Text → Text
unfolding upper_char
upper [] = []
upper (c ∷ text) = upper_char c ∷ upper text

unfoldable pub lower : Text → Text
unfolding lower_char
lower [] = []
lower (c ∷ text) = lower_char c ∷ lower text

-- The decimal digits of a number, the last ones of as many as there is fuel; a number has no more
-- digits than its value and one.
unfoldable pub decimal_digits : ℕ → ℕ → Text
decimal_digits zero n = []
decimal_digits (suc fuel) n =
    let front = decimal_digits fuel (n / 10) in
    if ltb n 10 then (48 + n) ∷ [] else front ++ ((48 + n % 10) ∷ [])

pub rstrip_none : (p : ℕ → Bool) (t : Text) → All (λ c. p c ≡ false) t → rstrip p t ≡ t
unfolding rstrip
rstrip_none p [] h = refl
rstrip_none p (c ∷ []) (h, hs) = rw h refl
rstrip_none p (c ∷ d ∷ t) (h, hs) = rw (rstrip_none p (d ∷ t) hs) refl

-- Nothing is stripped where no character passes the test.
pub strip_none : (p : ℕ → Bool) (t : Text) → All (λ c. p c ≡ false) t → strip p t ≡ t
unfolding strip lstrip
strip_none p [] h = unfold rstrip in refl
strip_none p (c ∷ t) (h, hs) = rw h (rstrip_none p (c ∷ t) (h, hs))

-- Decimal digits are no white space, and keep their case.
pub digits_white : (t : Text) → All (λ c. is_digit c ≡ true) t → All (λ c. is_white c ≡ false) t
unfolding is_digit is_white
digits_white [] h = tt
digits_white (c ∷ t) (h, hs) = (ground arith, digits_white t hs)

pub digits_upper : (t : Text) → All (λ c. is_digit c ≡ true) t → upper t ≡ t
unfolding is_digit upper
digits_upper [] h = refl
digits_upper (c ∷ t) (h, hs) =
    let same : upper_char c ≡ c = unfold upper_char in ground arith in
    rw (same, digits_upper t hs) refl
