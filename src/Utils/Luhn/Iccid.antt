-- ===== src/Utils/Luhn/Iccid.antt =====
-- What `sanitize_iccid` of pySim/utils.py returns.
use zk_e_sim_smdp.Common.{
  ◌+◌, ◌≤◌, ◌≡◌, refl, true, false, not, [], ◌∷◌, ◌++◌, ◌⊎◌, inl, inr, length, length-append, ltb,
  ==_iff, ◌==◌, Bool-cases, arith,
}
use zk_e_sim_smdp.Common.Outcome.{Outcome, ok, err, value_error, bind_ok, bind_guard}
use zk_e_sim_smdp.Common.Hex.{Text}
use zk_e_sim_smdp.Utils.Luhn.{
  calculate_luhn, verify_luhn, add_luhn, is_value_error, keep_or_add, complete_iccid, check_iccid,
  sanitize_iccid,
}
use zk_e_sim_smdp.Utils.Luhn.Digits.{split_end-append}

add_luhn_verified :
    (t t' : Text) → add_luhn t ≡ ok t' → (verify_luhn t' ≡ ok tt) × (length t' ≡ length t + 1)
unfolding add_luhn verify_luhn
add_luhn_verified t t' h = bind_ok (calculate_luhn t) _ h λ cd e k.
    let is : t ++ (cd + 48) ∷ [] ≡ t' = cc in
    let same : (cd + 48 == cd + 48) ≡ true = ground arith in
    rw (← is) (
      rw (split_end-append t (cd + 48), e, same) refl,
      omega (arith, length-append t ((cd + 48) ∷ [])),
    )

keep_or_add_verified :
    (t t' : Text) (r : Outcome (Unit {0}))
    → verify_luhn t ≡ r
    → keep_or_add t r ≡ ok t'
    → (verify_luhn t' ≡ ok tt) × (length t ≤ length t') × (length t' ≤ length t + 1)
unfolding keep_or_add
keep_or_add_verified t t' (ok checked) e h =
    let is : t ≡ t' = cc in rw (← is) (e, omega arith, omega arith)
keep_or_add_verified t t' (err x) e h = elim (Bool-cases (is_value_error x)) [
  | inl caught ↦
      let (verified, size) = add_luhn_verified t t' (rw caught at h) in
      (verified, omega arith, omega arith)
  | inr passed ↦ absurd (cc (rw passed at h))
]

-- What `check_iccid` returns for 19 or 20 digits.
check_iccid_verified :
    (t t' : Text)
    → (length t ≡ 19) ⊎ (length t ≡ 20)
    → check_iccid t ≡ ok t'
    → (verify_luhn t' ≡ ok tt) × (19 ≤ length t') × (length t' ≤ 20)
unfolding check_iccid
check_iccid_verified t t' (inl n) h =
    let no : (length t == 20) ≡ false = ground (arith, n) in
    let yes : (length t == 19) ≡ true = ground (arith, n) in
    let (verified, low, high) =
      keep_or_add_verified t t' (verify_luhn t) refl (rw (no, yes) at h) in
    (verified, omega arith, omega arith)
check_iccid_verified t t' (inr n) h =
    let yes : (length t == 20) ≡ true = ground (arith, n) in
    bind_ok (verify_luhn t) _ (rw yes at h)
      λ checked e k. let is : t ≡ t' = cc in rw (← is) (e, omega arith, omega arith)

-- What is accepted is left alone by `sanitize_iccid`.
accepted_again :
    (t : Text) → verify_luhn t ≡ ok tt → 19 ≤ length t → length t ≤ 20 → sanitize_iccid t ≡ ok t
unfolding sanitize_iccid complete_iccid check_iccid keep_or_add
accepted_again t verified low high =
    let not_short : ltb (length t) 18 ≡ false = ground arith in
    let not_long : ltb 20 (length t) ≡ false = ground arith in
    let whole : (length t == 18) ≡ false = ground arith in
    rw (not_short, not_long, whole)
      elim (Bool-cases (length t == 20)) [
        | inl twenty ↦ rw (twenty, verified) refl
        | inr other ↦
            let nineteen : (length t == 19) ≡ true = ground arith in
            rw (other, nineteen, verified) refl
      ]

-- Whether or not a digit was added, there are 19 or 20 then.
complete_iccid_size :
    (t u : Text)
    → not (ltb (length t) 18) ≡ true
    → not (ltb 20 (length t)) ≡ true
    → complete_iccid t ≡ ok u
    → (length u ≡ 19) ⊎ (length u ≡ 20)
unfolding complete_iccid
complete_iccid_size t u low high h = elim (Bool-cases (length t == 18)) [
  | inl short ↦
      let (verified, size) = add_luhn_verified t u (rw short at h) in
      let eighteen = (==_iff (length t) 18).0 short in inl (omega arith)
  | inr long ↦
      let is : t ≡ u = cc (rw long at h) in
      let from_18 : 18 ≤ length t = ground arith in
      let to_20 : length t ≤ 20 = ground arith in
      rw (← is) (elim (Bool-cases (length t == 19)) [
        | inl nineteen ↦ inl ((==_iff (length t) 19).0 nineteen)
        | inr other ↦ inr (ground arith)
      ])
]

-- What `sanitize_iccid` returns has 19 or 20 digits with a valid check digit, and is left alone by a
-- second call.
pub sanitize_iccid-sanitize_iccid :
    (t t' : Text)
    → sanitize_iccid t ≡ ok t'
    → (verify_luhn t' ≡ ok tt) × (19 ≤ length t') × (length t' ≤ 20) × (sanitize_iccid t' ≡ ok t')
unfolding sanitize_iccid complete_iccid
sanitize_iccid-sanitize_iccid t t' h =
    bind_guard (not (ltb (length t) 18)) value_error _ h λ low h₁.
      bind_guard (not (ltb 20 (length t))) value_error _ h₁ λ high h₂.
        bind_ok (complete_iccid t) _ h₂ λ u e k.
          let (verified, at_least, at_most) =
            check_iccid_verified u t' (complete_iccid_size t u low high e) k in
          (verified, at_least, at_most, accepted_again t' verified at_least at_most)
