-- ===== src/Smdpp/Tokens.antt =====
-- The operator's values of a new session, and the spent tokens, in osmo-smdpp.py.
use zk_e_sim_smdp.Common.{
  false, true, Option, none, some, [], ◌∷◌, ◌≡◌, refl, ap, sym, ◌∙◌, All, Bool-cases, inl, inr,
}
use mathlib.Core.Path.{subst}
use zk_e_sim_smdp.Common.Outcome.{ok, ◌>>=◌, bind_ok}
use zk_e_sim_smdp.Common.Bytes.{Bytes, IsByte, beq_refl}
use zk_e_sim_smdp.Common.Hex.{Text, to_hex, from_hex-to_hex}
use zk_e_sim_smdp.Merkle.{
  MerkleAccumulator, computed, init, values, contains, climb, compute_root, add, proof_loop,
  generate_proof, verify_loop, verify_proof,
}
use zk_e_sim_smdp.Merkle.Accumulator.{contains-add}
use zk_e_sim_smdp.Session.{RspSessionState}
use zk_e_sim_smdp.Smdpp.{Backend}
use zk_e_sim_smdp.Smdpp.Eligibility.{
  fixed_test_eid, setup_mno_values, root_bytes, is_empty, check_bundle, check_inclusion,
  spend_token, spend_by, credential, token_payload, verify_eligibility,
}

module _ (backend : Backend) where
  open backend use {sha256}

  -- The accumulator of one leaf.
  single : Bytes → MerkleAccumulator
  single leaf = record { leaves = (to_hex leaf, leaf) ∷ []; root = computed (some leaf) }

  add_first : (leaf : Bytes) → All IsByte leaf → add sha256 init (to_hex leaf) ≡ ok (single leaf)
  unfolding add compute_root contains values climb single
  add_first leaf h = rw (from_hex-to_hex leaf h) refl

  prove_first : (leaf : Bytes) → generate_proof sha256 (single leaf) (to_hex leaf) ≡ some []
  unfolding generate_proof contains values proof_loop single
  prove_first leaf = rw (beq_refl (to_hex leaf)) refl

  -- A new session can be set up, and the values that the server gives it pass its own check of the
  -- inclusion proof.
  pub setup_mno_values_included :
      (ss : RspSessionState)
      → All IsByte (sha256 (sha256 fixed_test_eid))
      → is_empty (sha256 (sha256 fixed_test_eid)) ≡ false
      → (setup_mno_values backend ss >>= check_inclusion backend) ≡ ok tt
  unfolding setup_mno_values root_bytes check_inclusion verify_proof verify_loop single
  setup_mno_values_included ss bytes full =
      let leaf = sha256 (sha256 fixed_test_eid) in
      rw (add_first leaf bytes, prove_first leaf, full, from_hex-to_hex leaf bytes, beq_refl leaf)
        refl

  add_again :
      (acc acc' : MerkleAccumulator) (e : Text)
      → add sha256 acc e ≡ ok acc'
      → add sha256 acc' e ≡ ok acc'
  unfolding add
  add_again acc acc' e h = rw (contains-add sha256 acc acc' e h) refl

  -- A token that was spent is accepted again: the second call changes nothing.
  spend_again :
      (ss ss' : RspSessionState)
      → spend_token backend ss ≡ ok ss'
      → (l : Option MerkleAccumulator) × (record ss { l_spent = l } ≡ ss')
        × (spend_token backend ss' ≡ ok ss')
  unfolding spend_token spend_by
  spend_again ss ss' h = go ss.l_spent ss.auth_tok refl refl h
    where
      unchanged :
          ss ≡ ss'
          → spend_by backend ss ss.l_spent ss.auth_tok ≡ ok ss
          → (l : Option MerkleAccumulator) × (record ss { l_spent = l } ≡ ss')
            × (spend_token backend ss' ≡ ok ss')
      unchanged same stays =
          (ss.l_spent, same, subst (λ s. spend_token backend s ≡ ok s) same stays)

      go :
          (l : Option MerkleAccumulator) (t : Option Bytes)
          → ss.l_spent ≡ l
          → ss.auth_tok ≡ t
          → spend_by backend ss l t ≡ ok ss'
          → (l : Option MerkleAccumulator) × (record ss { l_spent = l } ≡ ss')
            × (spend_token backend ss' ≡ ok ss')
      go none t held token h =
          unchanged (cc)
            (ap (λ (l : Option MerkleAccumulator). spend_by backend ss l ss.auth_tok) held)
      go (some acc) none held token h = unchanged (cc) (
          ap (λ (l : Option MerkleAccumulator). spend_by backend ss l ss.auth_tok) held
          ∙ ap (λ (t : Option Bytes). spend_by backend ss (some acc) t) token)
      go (some acc) (some tok) held token h = elim (Bool-cases (is_empty tok)) [
        | inl blank ↦ unchanged (cc (rw blank at h)) (
            ap (λ (l : Option MerkleAccumulator). spend_by backend ss l ss.auth_tok) held
            ∙ ap (λ (t : Option Bytes). spend_by backend ss (some acc) t) token
            ∙ rw blank refl)
        | inr full ↦
            bind_ok (add sha256 acc (to_hex tok)) (λ acc'. ok (record ss { l_spent = some acc' }))
              (rw full at h)
              λ acc' added h₁.
                let spent : RspSessionState = record ss { l_spent = some acc' } in
                let stays : spend_token backend spent ≡ ok spent =
                  ap (λ (t : Option Bytes). spend_by backend spent (some acc') t) token
                  ∙ rw (full, add_again acc acc' (to_hex tok) added) refl in
                let same : spent ≡ ss' = cc in
                (some acc', same, subst (λ s. spend_token backend s ≡ ok s) same stays)
      ]

  -- The checks do not look at the spent tokens.
  check_bundle_spent :
      (h_cert : Bytes) (ss : RspSessionState) (l : Option MerkleAccumulator)
      → check_bundle backend h_cert (record ss { l_spent = l }) ≡ check_bundle backend h_cert ss
  unfolding check_bundle credential token_payload check_inclusion
  check_bundle_spent h_cert ss l = refl

  -- The accumulator of spent tokens counts a token.
  unfoldable pub Counts : Option MerkleAccumulator → Bytes → Type 0
  Counts none tok = ⊥
  Counts (some acc) tok = contains acc.leaves (to_hex tok) ≡ true

  spend_token-Counts :
      (ss ss' : RspSessionState) (acc : MerkleAccumulator) (tok : Bytes)
      → ss.l_spent ≡ some acc
      → ss.auth_tok ≡ some tok
      → is_empty tok ≡ false
      → spend_token backend ss ≡ ok ss'
      → Counts ss'.l_spent tok × (ss'.auth_tok ≡ some tok)
  unfolding spend_token spend_by
  spend_token-Counts ss ss' acc tok held token full h =
      let spent : (add sha256 acc (to_hex tok) >>= λ acc'. ok (record ss { l_spent = some acc' }))
          ≡ ok ss' =
        sym (
          ap (λ (l : Option MerkleAccumulator). spend_by backend ss l ss.auth_tok) held
          ∙ ap (λ (t : Option Bytes). spend_by backend ss (some acc) t) token
          ∙ rw full refl)
        ∙ h in
      bind_ok (add sha256 acc (to_hex tok)) (λ acc'. ok (record ss { l_spent = some acc' })) spent
        λ acc' added h₁.
          let same : record ss { l_spent = some acc' } ≡ ss' = cc in
          rw (← same) (unfold Counts in contains-add sha256 acc acc' (to_hex tok) added, token)

  verify_again :
      (h_cert : Bytes) (ss ss' : RspSessionState)
      → verify_eligibility backend h_cert ss ≡ ok ss'
      → verify_eligibility backend h_cert ss' ≡ ok ss'
  unfolding verify_eligibility
  verify_again h_cert ss ss' h = bind_ok (check_bundle backend h_cert ss) _ h λ u e h₁.
      let (l, same, stays) = spend_again ss ss' h₁ in
      let passed : check_bundle backend h_cert ss' ≡ ok u =
        subst (λ s. check_bundle backend h_cert s ≡ ok u) same
          (check_bundle_spent h_cert ss l ∙ e) in
      rw passed stays

  -- When eligibility data are accepted for a session that keeps spent tokens and has a token that is not
  -- empty, the session that comes out counts the token as spent, and all the same the data are accepted
  -- again with that session, which then stays as it is.
  pub verify_eligibility_again :
      (h_cert : Bytes) (ss ss' : RspSessionState) (acc : MerkleAccumulator) (tok : Bytes)
      → ss.l_spent ≡ some acc
      → ss.auth_tok ≡ some tok
      → is_empty tok ≡ false
      → verify_eligibility backend h_cert ss ≡ ok ss'
      → Counts ss'.l_spent tok
        × (ss'.auth_tok ≡ some tok)
        × (verify_eligibility backend h_cert ss' ≡ ok ss')
  unfolding verify_eligibility
  verify_eligibility_again h_cert ss ss' acc tok held token full h =
      let (counts, same) =
        bind_ok (check_bundle backend h_cert ss) _ h
          λ u e h₁. spend_token-Counts ss ss' acc tok held token full h₁ in
      (counts, same, verify_again h_cert ss ss' h)
