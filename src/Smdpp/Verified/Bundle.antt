-- ===== src/Smdpp/Verified/Bundle.antt =====
-- The operator's signatures and the inclusion proof when `authenticateClient` of osmo-smdpp.py returns in
-- zk mode.
use zk_e_sim_smdp.Common.{ℕ, String, true, not, Option, some, ◌++◌, ◌≡◌, ap, ◌∙◌, ltb, ◌≤◌, arith}
use mathlib.Core.Path.{subst}
use zk_e_sim_smdp.Common.Outcome.{
  Outcome, ok, type_error, api_error, bind_ok, bind_guard, bind_expect, guard_ok,
}
use zk_e_sim_smdp.Common.Bytes.{Bytes}
use zk_e_sim_smdp.Common.Hex.{to_hex}
use zk_e_sim_smdp.Merkle.{verify_proof}
use zk_e_sim_smdp.Session.{RspSessionState}
use zk_e_sim_smdp.Smdpp.{Backend, Config, Moment, EligibilityData}
use zk_e_sim_smdp.Smdpp.Signature.{ecdsa_tr03111_to_dss}
use zk_e_sim_smdp.Smdpp.Eligibility.{
  decode_expiry, is_empty, take_eligibility, mno_verify, check_bundle, check_inclusion, credential,
  token_payload, verify_eligibility, deserialize_proof,
}
use zk_e_sim_smdp.Smdpp.Authenticate.Checks.{
  ClientRequest, AuthenticateResponse, zk_window, zk_verify,
}
use zk_e_sim_smdp.Session.{set_h_cert}
use zk_e_sim_smdp.Session.Store
use zk_e_sim_smdp.Session.Store.{SessionStore}
use zk_e_sim_smdp.Smdpp.{Content}
use zk_e_sim_smdp.Smdpp.Authenticate.{authenticate_client}
use zk_e_sim_smdp.Smdpp.Authenticate.Checks.{parse_client, attach}
use zk_e_sim_smdp.Smdpp.Opening.{authenticate_client_accepted}
use zk_e_sim_smdp.Smdpp.Verified.{Signs, Passed, check_client-Passed}

module _ (backend : Backend) (config : Config) where
  open backend use {encode_dss, key_verifies, public_key, sha256, realpath, readable}

  -- The token is in its window.
  pub InWindow : ℕ → Option Bytes → Type 0
  InWindow now expiry =
      (text : Bytes) × (n : ℕ) × (expiry ≡ some text) × (decode_expiry text ≡ some n) × (now ≤ n)

  -- The session with the eligibility data.
  abbrev taken : EligibilityData → RspSessionState → RspSessionState
  taken elig ss = record ss {
    h_pid = some elig.hpid;
    sig_cred = some elig.sig_cred;
    auth_tok = some elig.auth_token;
    root_auth = some elig.acc_root;
    sig_root = some elig.sig_root;
    pi_inc_bytes = some elig.acc_proof;
    pi_inc = some (deserialize_proof elig.acc_proof);
  }

  take-InWindow :
      (now : ℕ) (given : Option EligibilityData) (ss windowed : RspSessionState)
      → take_eligibility backend now given ss ≡ ok windowed
      → (elig : EligibilityData) × (given ≡ some elig)
        × InWindow now ss.expiry
        × (windowed ≡ taken elig ss)
  unfolding take_eligibility InWindow
  take-InWindow now given ss windowed h =
      bind_expect given (api_error "8.1" "6.1") _ h λ elig e₁ h₁.
        bind_expect ss.expiry (api_error "0.1" "2.2") _ h₁ λ expiry e₂ h₂.
          bind_guard (not (is_empty expiry)) (api_error "0.1" "2.2") _ h₂ λ _ h₃.
            bind_expect (decode_expiry expiry) (api_error "0.1" "2.2") _ h₃ λ n e₄ h₄.
              bind_guard (not (ltb n now)) (api_error "0.1" "1.4") _ h₄
                λ early h₅. (elig, e₁, (expiry, n, e₂, e₄, ground (arith, early)), cc)

  -- What the operator has signed, by its key, and that the pseudonym is in the operator's
  -- accumulator.
  pub Eligible : Bytes → EligibilityData → RspSessionState → Type 0
  Eligible h_cert elig ss =
      (pk : Bytes) × (mnoid : Bytes) × (expiry : Bytes) × (ss.pk_mno ≡ some pk)
      × (ss.mnoid ≡ some mnoid)
      × (ss.expiry ≡ some expiry)
      × Signs backend config pk elig.sig_cred (elig.hpid ++ (h_cert ++ mnoid))
      × Signs backend config pk elig.sig_root elig.acc_root
      × Signs backend config pk elig.auth_token ((elig.hpid ++ (h_cert ++ mnoid)) ++ expiry)
      × (verify_proof sha256 (to_hex elig.hpid) (deserialize_proof elig.acc_proof) elig.acc_root
          ≡ ok true)

  mno-Signs :
      (pk : Bytes) (sig : Bytes) (payload : Outcome Bytes) (subject reason : String) {u : Unit {0}}
      → mno_verify backend pk (some sig) payload subject reason ≡ ok u
      → (text : Bytes) × (payload ≡ ok text) × Signs backend config pk sig text
  unfolding mno_verify Signs
  mno-Signs pk sig payload subject reason h =
      bind_ok (ecdsa_tr03111_to_dss encode_dss sig) _ h λ dss e₁ h₁.
        bind_ok payload _ h₁ λ text e₂ h₂.
          (text, e₂, (dss, e₁, guard_ok (key_verifies pk dss text) (api_error subject reason) h₂))

  included :
      (elig : EligibilityData) (ss : RspSessionState) {u : Unit {0}}
      → check_inclusion backend (taken elig ss) ≡ ok u
      → verify_proof sha256 (to_hex elig.hpid) (deserialize_proof elig.acc_proof) elig.acc_root
        ≡ ok true
  unfolding check_inclusion
  included elig ss h = bind_expect ss.l_auth (api_error "0.1" "2.3") _ h λ acc e₁ h₁.
      bind_guard (not (is_empty elig.hpid)) (api_error "0.1" "1.3") _ h₁ λ _ h₂.
        bind_guard (not (is_empty elig.acc_root)) (api_error "0.1" "1.3") _ h₂ λ _ h₃.
          bind_ok
            (verify_proof sha256 (to_hex elig.hpid) (deserialize_proof elig.acc_proof)
              elig.acc_root)
            _ h₃ λ yes e₄ h₄. let holds : yes ≡ true = guard_ok yes (api_error "0.1" "1.3") h₄ in cc

  credential_text :
      (h_cert : Bytes) (elig : EligibilityData) (ss : RspSessionState) (text : Bytes)
      → credential backend (taken elig ss) h_cert ≡ ok text
      → (mnoid : Bytes) × (ss.mnoid ≡ some mnoid) × (text ≡ elig.hpid ++ (h_cert ++ mnoid))
  unfolding credential
  credential_text h_cert elig ss text h =
      bind_expect ss.mnoid type_error _ h λ mnoid e₁ h₁. (mnoid, e₁, cc)

  token_text :
      (h_cert : Bytes) (elig : EligibilityData) (ss : RspSessionState) (front text : Bytes)
      → credential backend (taken elig ss) h_cert ≡ ok front
      → token_payload backend (taken elig ss) h_cert ≡ ok text
      → (expiry : Bytes) × (ss.expiry ≡ some expiry) × (text ≡ front ++ expiry)
  unfolding token_payload
  token_text h_cert elig ss front text c h =
      bind_expect ss.expiry type_error _ (rw c at h) λ expiry e₁ h₁. (expiry, e₁, cc)

  signature_along :
      (pk sig : Bytes) {text text' : Bytes}
      → text ≡ text'
      → Signs backend config pk sig text
      → Signs backend config pk sig text'
  signature_along pk sig same = subst (λ t. Signs backend config pk sig t) same

  verify-Eligible :
      (h_cert : Bytes) (elig : EligibilityData) (ss verified : RspSessionState)
      → verify_eligibility backend h_cert (taken elig ss) ≡ ok verified
      → Eligible h_cert elig ss
  unfolding verify_eligibility check_bundle Eligible
  verify-Eligible h_cert elig ss verified h =
      bind_ok (check_bundle backend h_cert (taken elig ss)) _ h λ _ all _.
        bind_expect ss.pk_mno (api_error "0.1" "2.2") _ all λ pk e₁ h₁.
          bind_ok
            (mno_verify backend pk (some elig.sig_cred) (credential backend (taken elig ss) h_cert)
              "0.1" "1.2")
            _ h₁
            λ _ s₁ h₂.
              bind_ok (mno_verify backend pk (some elig.sig_root) (ok elig.acc_root) "0.1" "1.3") _
                h₂
                λ _ s₂ h₃.
                  bind_ok
                    (mno_verify backend pk (some elig.auth_token)
                      (token_payload backend (taken elig ss) h_cert) "0.1" "1.2")
                    _ h₃
                    λ _ s₃ h₄.
                      let (front, c, signed_cred) = mno-Signs pk elig.sig_cred _ "0.1" "1.2" s₁ in
                      let (mnoid, m, front_is) = credential_text h_cert elig ss front c in
                      let (root, r, signed_root) = mno-Signs pk elig.sig_root _ "0.1" "1.3" s₂ in
                      let (text, t, signed_tok) = mno-Signs pk elig.auth_token _ "0.1" "1.2" s₃ in
                      let (expiry, x, text_is) = token_text h_cert elig ss front text c t in
                      (
                        pk,
                        mnoid,
                        expiry,
                        e₁,
                        m,
                        x,
                        signature_along pk elig.sig_cred front_is signed_cred,
                        signature_along pk elig.sig_root (cc) signed_root,
                        signature_along pk elig.auth_token
                            (text_is ∙ ap (λ (f : Bytes). f ++ expiry) front_is) signed_tok,
                        included elig ss h₄,
                      )

  Passed-Eligible :
      (moment : Moment) (request : ClientRequest) (ss ss' : RspSessionState)
      (response : AuthenticateResponse)
      → config.zk_mode ≡ true
      → Passed backend config moment request ss ss' response
      → (elig : EligibilityData) × (request.signed1.eligibility_data ≡ some elig)
        × InWindow moment.now ss.expiry
        × Eligible (sha256 request.euicc_certificate_bin) elig ss
  unfolding Passed Eligible zk_window zk_verify
  Passed-Eligible moment request ss ss' response zk
        (w, v, eid, matching_id, iccid, c, signed, z, fresh, names, y, a) =
      let (elig, given, window, w_is) =
        take-InWindow moment.now request.signed1.eligibility_data ss w (rw zk at z) in
      (
        elig,
        given,
        window,
        verify-Eligible (sha256 request.euicc_certificate_bin) elig
            (record ss { eid = some (backend.to_text eid); matching_id = some matching_id }) v
            (rw (zk, w_is) at y),
      )

  pub Entitled : Moment → Content → SessionStore → Type 0
  Entitled moment content rss =
      (request : ClientRequest) × (ss : RspSessionState) × (elig : EligibilityData) × (parse_client
          backend config content
        ≡ ok request)
      × (Store.get request.transaction_id rss ≡ some ss)
      × (request.signed1.eligibility_data ≡ some elig)
      × InWindow moment.now ss.expiry
      × Eligible (sha256 request.euicc_certificate_bin) elig ss

  -- In zk mode, whenever `authenticateClient` returns, the request carries eligibility data, the token
  -- is still in its window, the operator's key verifies the credential, the accumulator's root and the
  -- token, and the inclusion proof leads from the pseudonym to that root.
  pub authenticate_client_eligible :
      (moment : Moment) (content : Content) (rss rss' : SessionStore)
      (response : AuthenticateResponse)
      → config.zk_mode ≡ true
      → authenticate_client backend config moment content rss ≡ (ok response, rss')
      → Entitled moment content rss
  unfolding Entitled attach set_h_cert Eligible
  authenticate_client_eligible moment content rss rss' response zk h =
      let (request, ss, ss', parsed, found, checked, now) =
        authenticate_client_accepted backend config moment content rss rss' response h in
      let attached = attach backend config request ss in
      let (elig, given, window, eligible) =
        Passed-Eligible moment request attached ss' response zk
          (check_client-Passed backend config moment request attached ss' response checked) in
      (request, ss, elig, parsed, found, given, window, eligible)
