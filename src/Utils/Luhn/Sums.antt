-- ===== src/Utils/Luhn/Sums.antt =====
-- The check digit as one sum with weights: what `verify_luhn` accepts has a sum that 10 divides.
use zk_e_sim_smdp.Common.{
  ℕ, ◌+◌, ◌-◌, ◌%◌, ◌<◌, ◌≡◌, ◌↔◌, refl, ap, Bool, true, false, List, [], ◌∷◌, map, drop, ◌==◌,
  if◌then◌else◌, arith,
}
use zk_e_sim_smdp.Utils.Luhn.{sum, backwards, every_other, doubled, check_digit}

-- The sum of digits that run backwards, where every other one is doubled, the first of them or the
-- second.
unfoldable pub weigh : Bool → List ℕ → ℕ
unfolding doubled
weigh b [] = 0
weigh true (d ∷ ds) = doubled d + weigh false ds
weigh false (d ∷ ds) = d + weigh true ds

every_other_cons : (d : ℕ) (ds : List ℕ) → every_other (d ∷ ds) ≡ d ∷ every_other (drop 1 ds)
unfolding every_other
every_other_cons d [] = refl
every_other_cons d (e ∷ ds) = refl

weigh_lem :
    (ds : List ℕ)
    → (weigh true ds ≡ sum (map doubled (every_other ds)) + sum (every_other (drop 1 ds)))
      × (weigh false ds ≡ sum (every_other ds) + sum (map doubled (every_other (drop 1 ds))))
unfolding weigh every_other
weigh_lem [] = (refl, refl)
weigh_lem (d ∷ []) = (omega arith, omega arith)
weigh_lem (d ∷ e ∷ ds) =
    let (t, f) = weigh_lem ds in
    let others = every_other_cons e ds in
    (
      omega (arith, ap sum others, t),
      omega (arith, ap (λ (l : List ℕ). sum (map doubled l)) others, f),
    )

complement_iff :
    (m c : ℕ) → c < 10 → ((if 10 - m % 10 == 10 then 0 else 10 - m % 10) ≡ c) ↔ ((c + m) % 10 ≡ 0)
complement_iff m c small = (λ h. ground arith, λ h. ground arith)

complement_small : (m : ℕ) → (if 10 - m % 10 == 10 then 0 else 10 - m % 10) < 10
complement_small m = ground arith

-- The check digit makes the sum a multiple of 10, and no other digit does.
pub check_digit_iff :
    (ds : List ℕ) (c : ℕ)
    → c < 10
    → (check_digit ds ≡ c) ↔ ((c + weigh true (backwards ds)) % 10 ≡ 0)
unfolding check_digit
check_digit_iff ds c small =
    let r = backwards ds in
    let (t, f) = weigh_lem r in
    let m : ℕ = sum (every_other (drop 1 r)) + sum (map doubled (every_other r)) in
    let same : weigh true r ≡ m = omega (arith, t) in rw same (complement_iff m c small)

pub check_digit_small : (ds : List ℕ) → check_digit ds < 10
unfolding check_digit
check_digit_small ds =
    let r = backwards ds in
    complement_small (sum (every_other (drop 1 r)) + sum (map doubled (every_other r)))
