-- ===== src/Smdpp/Verified.antt =====
-- What has been verified when `authenticateClient` of osmo-smdpp.py returns.
pub mod Issuers
pub mod Bundle
use zk_e_sim_smdp.Common.{
  ℕ, String, Bool, true, false, not, Option, none, some, List, [], ◌∷◌, ◌++◌, ◌≡◌, refl, ap, ◌∙◌,
  ltb, ◌≤◌, ◌<◌, if◌then◌else◌, arith,
}
use mathlib.Core.Path.{subst}
use zk_e_sim_smdp.Common.Outcome as O
use zk_e_sim_smdp.Common.Outcome.{
  Outcome, ok, err, type_error, index_error, api_error, attribute_error, extension_not_found,
  verify_error, bind_ok, bind_guard, bind_expect, guard_ok, expect_ok, Raised,
}
use zk_e_sim_smdp.Common.Bytes.{Bytes, beq, beq→eq}
use zk_e_sim_smdp.Common.Hex.{Text, to_hex}
use zk_e_sim_smdp.X509.{
  Certificate, CertificateSet, cert_get_auth_key_id, new_set, add_intermediate_cert,
  verify_cert_chain,
}
use zk_e_sim_smdp.X509.Chain.{Chain, verify_cert_chain_iff}
use zk_e_sim_smdp.Merkle.{verify_proof}
use zk_e_sim_smdp.Session.{RspSessionState}
use zk_e_sim_smdp.Smdpp.{
  Backend, Config, Moment, EuiccSigned1, EligibilityData, CtxParams1, common_authentication, other,
}
use zk_e_sim_smdp.Smdpp.Signature.{ecdsa_tr03111_to_dss}
use zk_e_sim_smdp.Smdpp.Certs.{ci_get_cert_for_pkid}
use zk_e_sim_smdp.Smdpp.Eligibility.{
  decode_expiry, is_empty, take_eligibility, mno_verify, check_inclusion, spend_token, credential,
  token_payload, verify_eligibility, deserialize_proof,
}
use zk_e_sim_smdp.Smdpp.Authenticate.Checks.{
  ClientRequest, AuthenticateResponse, first, join_path, has_prefix, der_suffix, ecdsa_verify,
  verify_chain, refuse_chain, check_chain, check_signature1, find_profile, check_context, answer,
  zk_window, zk_verify, check_client,
}
use zk_e_sim_smdp.Session.{set_h_cert}
use zk_e_sim_smdp.Session.Store
use zk_e_sim_smdp.Session.Store.{SessionStore}
use zk_e_sim_smdp.Smdpp.{Content}
use zk_e_sim_smdp.Smdpp.Authenticate.{authenticate_client}
use zk_e_sim_smdp.Smdpp.Authenticate.Checks.{parse_client, attach}
use zk_e_sim_smdp.Smdpp.Opening.{authenticate_client_accepted}

module _ (backend : Backend) (config : Config) where
  open backend use {encode_dss, key_verifies, public_key, sha256, realpath, readable}

  -- A raw signature over a text that a public key verifies.
  pub Signs : Bytes → Bytes → Bytes → Type 0
  Signs key signature text =
      (dss : Bytes) × (ecdsa_tr03111_to_dss encode_dss signature ≡ ok dss)
      × (key_verifies key dss text ≡ true)

  -- The request names a readable profile whose path begins with that of the directory of profiles.
  pub Names : CtxParams1 → Text → Type 0
  Names ctx matching_id =
      (ctx ≡ common_authentication (some matching_id))
      × (has_prefix config.upp_dir (realpath (join_path config.upp_dir matching_id ++ der_suffix))
          ≡ true)
      × (readable (join_path config.upp_dir matching_id ++ der_suffix) ≡ true)

  signature1-Signs :
      (request : ClientRequest) {u : Unit {0}}
      → check_signature1 backend config request ≡ ok u
      → Signs (public_key request.euicc_cert) request.signature1 request.signed1_bin
  unfolding check_signature1 ecdsa_verify Signs
  signature1-Signs request h =
      bind_ok
        (ecdsa_verify backend config request.euicc_cert request.signature1 request.signed1_bin) _ h
        λ valid e₁ h₁.
          bind_ok (ecdsa_tr03111_to_dss encode_dss request.signature1) _ e₁ λ dss e₂ h₂.
            let holds : valid ≡ true = guard_ok valid (api_error "8.1" "6.1") h₁ in (dss, e₂, cc)

  found-Names :
      (ctx : CtxParams1) (matching_id : Text) (iccid : Bytes)
      → check_context backend config ctx ≡ ok (matching_id, iccid)
      → Names ctx matching_id
  unfolding check_context find_profile Names
  found-Names other m iccid h = absurd (cc)
  found-Names (common_authentication none) m iccid h = absurd (cc)
  found-Names (common_authentication (some [])) m iccid h = absurd (cc)
  found-Names (common_authentication (some (c ∷ name))) m iccid h =
      let path = join_path config.upp_dir (c ∷ name) ++ der_suffix in
      bind_guard (has_prefix config.upp_dir (realpath path)) (api_error "8.2.6" "3.8") _ h
        λ under h₁. bind_guard (readable path) (api_error "8.2.6" "3.8") _ h₁ λ can h₂.
          bind_ok (backend.profile_iccid path) _ h₂
            λ i e₃ h₃. let same : c ∷ name ≡ m = cc in rw (← same) (refl, under, can)

  -- Taking over the eligibility data keeps what the request is checked against.
  take_keeps :
      (now : ℕ) (given : Option EligibilityData) (ss windowed : RspSessionState)
      → take_eligibility backend now given ss ≡ ok windowed
      → windowed.server_challenge ≡ ss.server_challenge
  unfolding take_eligibility
  take_keeps now given ss windowed h = bind_expect given (api_error "8.1" "6.1") _ h λ elig e₁ h₁.
      bind_expect ss.expiry (api_error "0.1" "2.2") _ h₁ λ expiry e₂ h₂.
        bind_guard (not (is_empty expiry)) (api_error "0.1" "2.2") _ h₂ λ _ h₃.
          bind_expect (decode_expiry expiry) (api_error "0.1" "2.2") _ h₃
            λ n e₄ h₄. bind_guard (not (ltb n now)) (api_error "0.1" "1.4") _ h₄ λ _ h₅. cc

  window_keeps :
      (moment : Moment) (request : ClientRequest) (ss windowed : RspSessionState)
      → zk_window backend config moment request ss ≡ ok windowed
      → windowed.server_challenge ≡ ss.server_challenge
  unfolding zk_window
  window_keeps moment request ss windowed h =
      ground (arith, take_keeps moment.now request.signed1.eligibility_data ss windowed)

  -- What `check_client` has passed when it returns: each step with its session.
  unfoldable pub Passed :
      Moment → ClientRequest → RspSessionState → RspSessionState → AuthenticateResponse → Type 0
  Passed moment request ss ss' response =
      (windowed : RspSessionState) × (verified : RspSessionState) × (eid : String)
      × (matching_id : Text) × (iccid : Bytes) × (check_chain backend config request ss ≡ ok tt)
      × Signs (public_key request.euicc_cert) request.signature1 request.signed1_bin
      × (zk_window backend config moment request ss ≡ ok windowed)
      × (request.signed1.server_challenge ≡ ss.server_challenge)
      × Names request.signed1.ctx_params1 matching_id
      × (zk_verify backend config request
            (record windowed { eid = some (backend.to_text eid); matching_id = some matching_id })
          ≡ ok verified)
      × (answer backend config request matching_id iccid verified ≡ ok (ss', response))

  pub check_client-Passed :
      (moment : Moment) (request : ClientRequest) (ss ss' : RspSessionState)
      (response : AuthenticateResponse)
      → check_client backend config moment request ss ≡ ok (ss', response)
      → Passed moment request ss ss' response
  unfolding check_client Passed
  check_client-Passed moment request ss ss' response h =
      bind_ok (check_chain backend config request ss) _ h λ u e₁ h₁.
        bind_ok (check_signature1 backend config request) _ h₁ λ v e₂ h₂.
          bind_ok (zk_window backend config moment request ss) _ h₂ λ windowed e₃ h₃.
            bind_expect (first request.euicc_cert.serial_number) index_error _ h₃ λ eid e₄ h₄.
              bind_guard (beq request.signed1.server_challenge windowed.server_challenge)
                (api_error "8.1" "6.1") _ h₄
                λ fresh h₅.
                  bind_ok (check_context backend config request.signed1.ctx_params1) _ h₅
                    λ (matching_id, iccid) e₆ h₆.
                      let named : RspSessionState = record windowed {
                        eid = some (backend.to_text eid);
                        matching_id = some matching_id;
                      } in
                      bind_ok (zk_verify backend config request named) _ h₆ λ verified e₇ h₇. (
                        windowed,
                        verified,
                        eid,
                        matching_id,
                        iccid,
                        e₁,
                        signature1-Signs request e₂,
                        e₃,
                        beq→eq request.signed1.server_challenge windowed.server_challenge fresh
                            ∙ window_keeps moment request ss windowed e₃,
                        found-Names request.signed1.ctx_params1 matching_id iccid e₆,
                        e₇,
                        h₇,
                      )

  pub Signed : Content → SessionStore → Type 0
  Signed content rss =
      (request : ClientRequest) × (ss : RspSessionState) × (matching_id : Text) × (parse_client
          backend config content
        ≡ ok request)
      × (Store.get request.transaction_id rss ≡ some ss)
      × Signs (public_key request.euicc_cert) request.signature1 request.signed1_bin
      × (request.signed1.server_challenge ≡ ss.server_challenge)
      × Names request.signed1.ctx_params1 matching_id

  -- Whenever `authenticateClient` returns, the request carries a signature that the key of its
  -- certificate verifies, over the challenge that the session of its transaction identifier was opened
  -- with, and it names a readable profile whose path begins with that of the directory of profiles.
  pub authenticate_client-Signed :
      (moment : Moment) (content : Content) (rss rss' : SessionStore)
      (response : AuthenticateResponse)
      → authenticate_client backend config moment content rss ≡ (ok response, rss')
      → Signed content rss
  unfolding Signed Passed attach set_h_cert
  authenticate_client-Signed moment content rss rss' response h =
      let (request, ss, ss', parsed, found, checked, now) =
        authenticate_client_accepted backend config moment content rss rss' response h in
      let (w, v, eid, matching_id, iccid, c, signed, z, fresh, names, y, a) =
        check_client-Passed moment request (attach backend config request ss) ss' response
          checked in
      (request, ss, matching_id, parsed, found, signed, fresh, names)
