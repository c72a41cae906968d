-- ===== src/Utils/Luhn/Digits.antt =====
-- Texts of digits, and what `verify_luhn` of pySim/utils.py says of the sum of its digits.
use zk_e_sim_smdp.Common.{
  ℕ, ◌+◌, ◌%◌, ◌≤◌, ◌<◌, ◌≡◌, refl, sym, ap, ◌∙◌, true, false, List, [], ◌∷◌, ◌++◌, some, length,
  length-append, ◌==◌, ==_iff, arith, ◌-◌, ◌&&◌, leb, ltb, lt→ltb, Bool-cases, inl, inr,
}
use zk_e_sim_smdp.Common.Outcome.{
  ok, value_error, index_error, bind_ok, bind_expect, guard_ok, ◌>>=◌,
}
use zk_e_sim_smdp.Common.Hex.{Text}
use zk_e_sim_smdp.Utils.Luhn.{
  digit_behind, int_of, digits_of, backwards, check_digit, calculate_luhn, split_end, verify_luhn,
}
use zk_e_sim_smdp.Utils.Luhn.Sums.{weigh, check_digit_iff, check_digit_small}

digit_behind_small : (zs : List ℕ) (c d : ℕ) → digit_behind zs c ≡ ok d → d < 10
unfolding digit_behind
digit_behind_small [] c d h = absurd (cc)
digit_behind_small (z ∷ zs) c d h = elim (Bool-cases (leb z c && ltb c (z + 10))) [
  | inl here ↦ let is : c - z ≡ d = unwrap (rw here at h) in ground (arith, here, is)
  | inr later ↦ digit_behind_small zs c d (rw later at h)
]
  where
    unwrap : {m n : ℕ} → ok m ≡ ok n → m ≡ n
    unwrap e = cc

pub int_of_small : (c d : ℕ) → int_of c ≡ ok d → d < 10
unfolding int_of
int_of_small c d h = elim (Bool-cases (leb 48 c && leb c 57)) [
  | inl digit ↦ ground (arith, digit, rw digit at h)
  | inr other ↦ elim (Bool-cases (ltb c 128)) [
    | inl ascii ↦ absurd (cc (rw (other, ascii) at h))
    | inr foreign ↦ digit_behind_small _ c d (rw (other, foreign) at h)
  ]
]

-- A digit of ASCII is the only character of ASCII that `int` reads as its number.
pub int_of_ascii : (c d : ℕ) → c < 128 → int_of c ≡ ok d → c ≡ d + 48
unfolding int_of
int_of_ascii c d ascii h =
    let low : ltb c 128 ≡ true = lt→ltb c 128 ascii in
    elim (Bool-cases (leb 48 c && leb c 57)) [
      | inl digit ↦ ground (arith, digit, rw digit at h)
      | inr other ↦ absurd (cc (rw (other, low) at h))
    ]

pub int_of_digit : (d : ℕ) → d < 10 → int_of (d + 48) ≡ ok d
unfolding int_of
int_of_digit d h = ground arith

pub digits_of-append :
    (a b : Text) (da db : List ℕ)
    → digits_of a ≡ ok da
    → digits_of b ≡ ok db
    → digits_of (a ++ b) ≡ ok (da ++ db)
unfolding digits_of
digits_of-append [] b [] db h k = k
digits_of-append [] b (d ∷ da) db h k = absurd (cc)
digits_of-append (c ∷ a) b da db h k = bind_ok (int_of c) _ h λ d e₁ h₁.
    bind_ok (digits_of a) _ h₁ λ ds e₂ h₂.
      let same : d ∷ ds ≡ da = cc in rw (e₁, digits_of-append a b ds db e₂ k, ← same) refl

pub digits_of_parts :
    (a b : Text) (ds : List ℕ)
    → digits_of (a ++ b) ≡ ok ds
    → (da : List ℕ) × (db : List ℕ) × (digits_of a ≡ ok da)
      × (digits_of b ≡ ok db)
      × (ds ≡ da ++ db)
unfolding digits_of
digits_of_parts [] b ds h = ([], ds, refl, h, refl)
digits_of_parts (c ∷ a) b ds h = bind_ok (int_of c) _ h λ d e₁ h₁.
    bind_ok (digits_of (a ++ b)) _ h₁ λ rest e₂ h₂.
      let (da, db, ha, hb, same) = digits_of_parts a b rest e₂ in
      (d ∷ da, db, rw (e₁, ha) refl, hb, cc)

pub split_end-append : (a : Text) (c : ℕ) → split_end (a ++ c ∷ []) ≡ some (a, c)
unfolding split_end
split_end-append [] c = refl
split_end-append (b ∷ a) c = rw (split_end-append a c) refl

split_end_cons :
    (c : ℕ) (t : Text)
    → (a : Text) × (l : ℕ) × (split_end (c ∷ t) ≡ some (a, l)) × (c ∷ t ≡ a ++ l ∷ [])
unfolding split_end
split_end_cons c [] = ([], c, refl, refl)
split_end_cons c (d ∷ t) =
    let (a, l, e, same) = split_end_cons d t in (c ∷ a, l, rw e refl, ap (λ (x : Text). c ∷ x) same)

split_end_joined : (t a : Text) (c : ℕ) → split_end t ≡ some (a, c) → t ≡ a ++ c ∷ []
split_end_joined [] a c h = absurd (unfold split_end in cc)
split_end_joined (b ∷ t) a c h = let (a', l, e, same) = split_end_cons b t in same ∙ cc (sym e ∙ h)

backwards_end : (ds : List ℕ) (d : ℕ) → backwards (ds ++ d ∷ []) ≡ d ∷ backwards ds
unfolding backwards
backwards_end [] d = refl
backwards_end (e ∷ ds) d = rw (backwards_end ds d) refl

one_digit : (d : ℕ) → d < 10 → digits_of ((d + 48) ∷ []) ≡ ok (d ∷ [])
unfolding digits_of
one_digit d small = rw (int_of_digit d small) refl

weigh_end :
    (ds : List ℕ) (d : ℕ) → weigh false (backwards (ds ++ d ∷ [])) ≡ d + weigh true (backwards ds)
weigh_end ds d = rw (backwards_end ds d) (unfold weigh in refl)

unfoldable pub SumsToTen : Text → Type 0
SumsToTen t =
    (ds : List ℕ) × (digits_of t ≡ ok ds) × (1 ≤ length ds) × (weigh false (backwards ds) % 10 ≡ 0)

-- A text that `verify_luhn` accepts has digits only, at least one, and its weighted sum, every second
-- digit from the end doubled, is a multiple of 10.
pub verify_luhn-SumsToTen : (t : Text) → verify_luhn t ≡ ok tt → SumsToTen t
unfolding verify_luhn calculate_luhn SumsToTen
verify_luhn-SumsToTen t h = bind_expect (split_end t) index_error _ h λ (front, last) e₁ h₁.
    bind_ok (digits_of front >>= λ num. ok (check_digit num)) _ h₁ λ cd e₂ h₂.
      bind_ok (digits_of front) _ e₂ λ ds e₃ h₃.
        let is_last : cd + 48 ≡ last =
          (==_iff (cd + 48) last).0 (guard_ok (cd + 48 == last) value_error h₂) in
        let is_cd : check_digit ds ≡ cd = cc in
        let small : cd < 10 = omega (arith, check_digit_small ds) in
        let digit : digits_of (last ∷ []) ≡ ok (cd ∷ []) = rw (← is_last) (one_digit cd small) in
        (
          ds ++ cd ∷ [],
          rw (split_end_joined t front last e₁) (digits_of-append front (last ∷ []) ds _ e₃ digit),
          omega (arith, length-append ds (cd ∷ [])),
          rw (weigh_end ds cd) ((check_digit_iff ds cd small).0 is_cd),
        )
