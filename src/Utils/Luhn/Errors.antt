-- ===== src/Utils/Luhn/Errors.antt =====
-- The check digit detects every single wrong digit.
use zk_e_sim_smdp.Common.{
  ℕ, ◌+◌, ◌%◌, ◌<◌, ◌≡◌, refl, sym, ap, ◌∙◌, Bool, true, false, List, [], ◌∷◌, ◌++◌, arith,
}
use mathlib.Core.List.{append_assoc}
use zk_e_sim_smdp.Common.Outcome.{ok, bind_ok}
use zk_e_sim_smdp.Common.Hex.{Text}
use zk_e_sim_smdp.Utils.Luhn.{int_of, digits_of, backwards, doubled, verify_luhn}
use zk_e_sim_smdp.Utils.Luhn.Sums.{weigh}
use zk_e_sim_smdp.Utils.Luhn.Digits.{
  int_of_small, int_of_ascii, digits_of_parts, SumsToTen, verify_luhn-SumsToTen,
}

doubled_apart :
    (d e : ℕ) → d < 10 → e < 10 → (k : ℕ) → (doubled d + k) % 10 ≡ (doubled e + k) % 10 → d ≡ e
unfolding doubled
doubled_apart d e hd he k h = omega arith

-- Behind the same digits, two sums that agree modulo 10 begin with the same digit.
weigh_apart :
    (b : Bool) (d e : ℕ) (xs ys : List ℕ)
    → d < 10
    → e < 10
    → (k : ℕ) → (k + weigh b (xs ++ d ∷ ys)) % 10 ≡ (k + weigh b (xs ++ e ∷ ys)) % 10
    → d ≡ e
unfolding weigh
weigh_apart true d e [] ys hd he k h = doubled_apart d e hd he (k + weigh false ys) (omega arith)
weigh_apart false d e [] ys hd he k h = omega arith
weigh_apart true d e (x ∷ xs) ys hd he k h =
    weigh_apart false d e xs ys hd he (k + doubled x) (omega arith)
weigh_apart false d e (x ∷ xs) ys hd he k h = weigh_apart true d e xs ys hd he (k + x) (omega arith)

backwards_middle : (a b : List ℕ) (d : ℕ) → backwards (a ++ d ∷ b) ≡ backwards b ++ d ∷ backwards a
unfolding backwards
backwards_middle [] b d = refl
backwards_middle (x ∷ a) b d =
    ap (λ (l : List ℕ). l ++ x ∷ []) (backwards_middle a b d)
    ∙ append_assoc (backwards b) (d ∷ backwards a) (x ∷ [])

-- The digits around one place of a text that is accepted.
around :
    (a b : Text) (c : ℕ)
    → SumsToTen (a ++ c ∷ b)
    → (da : List ℕ) × (d : ℕ) × (db : List ℕ) × (digits_of a ≡ ok da)
      × (digits_of b ≡ ok db)
      × (int_of c ≡ ok d)
      × (d < 10)
      × (weigh false (backwards db ++ d ∷ backwards da) % 10 ≡ 0)
unfolding SumsToTen digits_of
around a b c (ds, e, some_digit, sum) =
    let (da, rest, ha, hb, parts) = digits_of_parts a (c ∷ b) ds e in
    bind_ok (int_of c) _ hb λ d e₁ h₁. bind_ok (digits_of b) _ h₁ λ db e₂ h₂.
      let all : ds ≡ da ++ d ∷ db = cc in
      (
        da,
        d,
        db,
        ha,
        e₂,
        e₁,
        int_of_small c d e₁,
        ap (λ (l : List ℕ). weigh false l % 10) (sym (ap backwards all ∙ backwards_middle da db d))
            ∙ sum,
      )

-- Of two texts that differ in one character only, which is of ASCII in both, `verify_luhn` accepts at
-- most one.
pub verify_luhn_single :
    (a b : Text) (c c' : ℕ)
    → c < 128
    → c' < 128
    → verify_luhn (a ++ c ∷ b) ≡ ok tt
    → verify_luhn (a ++ c' ∷ b) ≡ ok tt
    → c ≡ c'
verify_luhn_single a b c c' ascii ascii' h h' =
    let (da, d, db, ha, hb, read, small, sum) =
      around a b c (verify_luhn-SumsToTen (a ++ c ∷ b) h) in
    let (da', d', db', ha', hb', read', small', sum') =
      around a b c' (verify_luhn-SumsToTen (a ++ c' ∷ b) h') in
    let same_a : da' ≡ da = cc in
    let same_b : db' ≡ db = cc in
    let other : weigh false (backwards db ++ d' ∷ backwards da) % 10 ≡ 0 =
      rw (← same_a, ← same_b) sum' in
    let digit : d ≡ d' =
      weigh_apart false d d' (backwards db) (backwards da) small small' 0
        (omega (arith, sum, other)) in
    int_of_ascii c d ascii read
    ∙ ap (λ (n : ℕ). n + 48) digit
    ∙ sym (int_of_ascii c' d' ascii' read')
