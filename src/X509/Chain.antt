-- ===== src/X509/Chain.antt =====
-- `verify_cert_chain` accepts exactly the certificates that have a chain of verified signatures to
-- the root of at most `max_depth` links.
use zk_e_sim_smdp.Common.{
  ℕ, zero, suc, ◌-◌, ◌≤◌, ◌<◌, ◌≡◌, refl, ◌≢◌, ◌↔◌, ◌⊎◌, Bool, true, Option, none, some, inl, inr,
  Option-cases, arith,
}
use zk_e_sim_smdp.Common.Outcome.{Outcome, ok, err, Raised}
use zk_e_sim_smdp.Common.Bytes.{Bytes, beq_iff, beq_refl}
use zk_e_sim_smdp.X509.{
  Certificate, CertificateSet, lookup, chain_step, chain_loop, verify_cert_chain,
}

round_cases :
    (r : Outcome (Option Certificate))
    → (r ≡ ok none)
      ⊎ ((parent : Certificate) × (r ≡ ok (some parent)))
      ⊎ ((e : Raised) × (r ≡ err e))
round_cases (ok none) = inl refl
round_cases (ok (some parent)) = inr (inl (parent, refl))
round_cases (err e) = inr (inr (e, refl))

module _ (signed_by : Certificate → Certificate → Bool) (cs : CertificateSet) where
  -- A chain of `n` links below the last one, which ends at the root.
  pub data Chain : ℕ → Certificate → Type 0 where
    at_root :
        {c : Certificate} (aki : Bytes)
        → c.auth_key_id ≡ some aki
        → cs.root_cert.subject_key_id ≡ some aki
        → signed_by c cs.root_cert ≡ true
        → Chain zero c
    by_parent :
        {n : ℕ} {c : Certificate} (aki root_id : Bytes) (parent : Certificate)
        → c.auth_key_id ≡ some aki
        → cs.root_cert.subject_key_id ≡ some root_id
        → aki ≢ root_id
        → lookup aki cs.intermediate_certs ≡ some parent
        → signed_by c parent ≡ true
        → Chain n parent
        → Chain (suc n) c

  -- The first round that returns is one at the root.
  chain_step_root :
      (c : Certificate)
      → chain_step signed_by cs c ≡ ok none
      → (aki : Bytes) × (c.auth_key_id ≡ some aki)
        × (cs.root_cert.subject_key_id ≡ some aki)
        × (signed_by c cs.root_cert ≡ true)
  unfolding chain_step
  chain_step_root c h = elim (Option-cases c.auth_key_id) [
    | inl absent ↦ absurd (cc (rw absent at h))
    | inr (aki, present) ↦ elim (Option-cases cs.root_cert.subject_key_id) [
      | inl absent ↦ absurd (cc (rw (present, absent) at h))
      | inr (root_id, root_present) ↦ ground (arith, beq_iff aki root_id)
    ]
  ]

  -- A round that goes on has found a parent that signed the certificate.
  chain_step_parent :
      (c parent : Certificate)
      → chain_step signed_by cs c ≡ ok (some parent)
      → (aki : Bytes) × (root_id : Bytes) × (c.auth_key_id ≡ some aki)
        × (cs.root_cert.subject_key_id ≡ some root_id)
        × (aki ≢ root_id)
        × (lookup aki cs.intermediate_certs ≡ some parent)
        × (signed_by c parent ≡ true)
  unfolding chain_step
  chain_step_parent c parent h = elim (Option-cases c.auth_key_id) [
    | inl absent ↦ absurd (cc (rw absent at h))
    | inr (aki, present) ↦ elim (Option-cases cs.root_cert.subject_key_id) [
      | inl absent ↦ absurd (cc (rw (present, absent) at h))
      | inr (root_id, root_present) ↦ (
        aki,
        root_id,
        present,
        root_present,
        λ e. ground (arith, beq_iff aki root_id),
        ground arith,
        ground arith,
      )
    ]
  ]

  -- Completeness of one round.
  chain_step_at_root :
      (c : Certificate) (aki : Bytes)
      → c.auth_key_id ≡ some aki
      → cs.root_cert.subject_key_id ≡ some aki
      → signed_by c cs.root_cert ≡ true
      → chain_step signed_by cs c ≡ ok none
  unfolding chain_step
  chain_step_at_root c aki p q s = ground (arith, beq_refl aki)

  chain_step_to_parent :
      (c parent : Certificate) (aki root_id : Bytes)
      → c.auth_key_id ≡ some aki
      → cs.root_cert.subject_key_id ≡ some root_id
      → aki ≢ root_id
      → lookup aki cs.intermediate_certs ≡ some parent
      → signed_by c parent ≡ true
      → chain_step signed_by cs c ≡ ok (some parent)
  unfolding chain_step
  chain_step_to_parent c parent aki root_id p q d l s = ground (arith, beq_iff aki root_id)

  -- A loop that returns has walked a chain, of no more links than rounds.
  chain_loop_sound :
      (left : ℕ) (c : Certificate)
      → chain_loop signed_by left cs c ≡ ok tt
      → (n : ℕ) × (n ≤ left) × Chain n c
  unfolding chain_loop
  chain_loop_sound zero c h = elim (round_cases (chain_step signed_by cs c)) [
    | inl done ↦ let (aki, p, q, s) = chain_step_root c done in (0, omega arith, at_root aki p q s)
    | inr (inl (parent, on)) ↦ absurd (cc (rw on at h))
    | inr (inr (e, stop)) ↦ absurd (cc (rw stop at h))
  ]
  chain_loop_sound (suc left) c h = elim (round_cases (chain_step signed_by cs c)) [
    | inl done ↦ let (aki, p, q, s) = chain_step_root c done in (0, omega arith, at_root aki p q s)
    | inr (inl (parent, on)) ↦
        let (n, b, chain) = chain_loop_sound left parent (rw on at h) in
        let (aki, root_id, p, q, d, l, s) = chain_step_parent c parent on in
        (suc n, omega arith, by_parent aki root_id parent p q d l s chain)
    | inr (inr (e, stop)) ↦ absurd (cc (rw stop at h))
  ]

  chain_loop_complete :
      (left n : ℕ) (c : Certificate) → n ≤ left → Chain n c → chain_loop signed_by left cs c ≡ ok tt
  unfolding chain_loop
  chain_loop_complete zero n c h (at_root aki p q s) = rw (chain_step_at_root c aki p q s)
  chain_loop_complete zero n c h (by_parent aki r parent p q d l s rest) = absurd (omega arith)
  chain_loop_complete (suc left) n c h (at_root aki p q s) = rw (chain_step_at_root c aki p q s)
  chain_loop_complete (suc left) n c h (by_parent {n = m} aki r parent p q d l s rest) =
      rw (chain_step_to_parent c parent aki r p q d l s)
        (chain_loop_complete left m parent (omega arith) rest)

  -- A certificate verifies exactly when it has a chain of signatures to the root whose number of
  -- certificates, itself included, is at most `max_depth`.
  pub verify_cert_chain_iff :
      (cert : Certificate) (max_depth : ℕ)
      → 0 < max_depth
      → (verify_cert_chain signed_by cs cert max_depth ≡ ok tt)
        ↔ ((n : ℕ) × (n < max_depth) × Chain n cert)
  unfolding verify_cert_chain
  verify_cert_chain_iff cert max_depth h = (
    λ e. let (n, b, chain) = chain_loop_sound (max_depth - 1) cert e in (n, omega arith, chain),
    λ r. chain_loop_complete (max_depth - 1) r.0 cert (omega arith) r.2,
  )
