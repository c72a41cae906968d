-- ===== src/Smdpp/Machine/Keeps.antt =====
-- What the parts of the handlers of osmo-smdpp.py add to the progress of a session.
use zk_e_sim_smdp.Common.{
  ℕ, not, Option, none, some, ◌∷◌, ◌++◌, ◌≡◌, refl, sym, ap, ◌∙◌, ltb, Bool-cases, inl, inr,
}
use zk_e_sim_smdp.Common.Outcome.{
  ok, type_error, attribute_error, api_error, bind_ok, bind_guard, bind_expect,
}
use zk_e_sim_smdp.Common.Bytes.{Bytes}
use zk_e_sim_smdp.Common.Hex.{Text}
use zk_e_sim_smdp.Merkle.{MerkleAccumulator, add, init, generate_proof}
use zk_e_sim_smdp.X509.{Certificate, cert_get_subject_key_id}
use zk_e_sim_smdp.Session.{RspSessionState, ProfileMetadata, new_session, set_h_cert}
use zk_e_sim_smdp.Es8p.{BoundProfilePackage, gen_store_metadata_request}
use zk_e_sim_smdp.Smdpp.{Backend, Config, Moment, Content, EligibilityData}
use zk_e_sim_smdp.Smdpp.Eligibility.{
  fixed_test_eid, setup_mno_values, root_bytes, is_empty, decode_expiry, take_eligibility,
  check_bundle, spend_by, spend_token, verify_eligibility,
}
use zk_e_sim_smdp.Common.Hex.{to_hex}
use zk_e_sim_smdp.Smdpp.Initiate.{open_session}
use zk_e_sim_smdp.Smdpp.Authenticate.Checks.{
  ClientRequest, AuthenticateResponse, attach, answer, zk_window, zk_verify, check_client,
  profile_metadata,
}
use zk_e_sim_smdp.Smdpp.Verified.{Passed, check_client-Passed}
use zk_e_sim_smdp.Smdpp.Bound.{Confirmed, confirmed}
use zk_e_sim_smdp.Smdpp.Download.{
  check_download, agree_keys, bind_profile, prepare_package, own_host_id,
}
use zk_e_sim_smdp.Smdpp.Machine.{Progress, fresh, answer_with, bind_with}

-- The progress of a session of the store.
unfoldable pub progress : RspSessionState → Progress
progress ss = record {
  transaction_id = ss.transaction_id;
  eid = ss.eid;
  matching_id = ss.matching_id;
  profile_metadata = ss.profile_metadata;
  smdp_signature2_do = ss.smdp_signature2_do;
  euicc_otpk = ss.euicc_otpk;
  smdp_otpk = ss.smdp_otpk;
  host_id = ss.host_id;
  shared_secret = ss.shared_secret;
}

pub new_session-fresh :
    (id : Text) (random ci_cert_id : Bytes) → progress (new_session id random ci_cert_id) ≡ fresh id
unfolding progress fresh new_session
new_session-fresh id random ci_cert_id = refl

module _ (backend : Backend) (config : Config) where
  setup_keeps :
      (ss ss' : RspSessionState) → setup_mno_values backend ss ≡ ok ss' → progress ss ≡ progress ss'
  unfolding setup_mno_values progress
  setup_keeps ss ss' h =
      let leaf = to_hex (backend.sha256 (backend.sha256 fixed_test_eid)) in
      bind_ok (add backend.sha256 init leaf) _ h λ l_auth e₁ h₁.
        bind_ok (root_bytes l_auth.root) _ h₁ λ root e₂ h₂.
          bind_expect (generate_proof backend.sha256 l_auth leaf) type_error _ h₂ λ pi e₃ h₃. cc

  pub open_session-fresh :
      (moment : Moment) (challenge : Bytes) (ci_cert : Certificate) (ss : RspSessionState)
      → open_session backend config moment challenge ci_cert ≡ ok ss
      → progress ss ≡ fresh moment.uuid
  unfolding open_session progress fresh new_session
  open_session-fresh moment challenge ci_cert ss h =
      bind_ok (cert_get_subject_key_id ci_cert) _ h λ ci_cert_id e₁ h₁.
        let opened : RspSessionState = record (new_session moment.uuid moment.random ci_cert_id) {
          euicc_challenge = some challenge;
        } in
        elim (Bool-cases config.zk_mode) [
          | inl zk ↦ sym (setup_keeps opened ss (rw zk at h₁))
          | inr plain ↦ let same : opened ≡ ss = cc in rw (← same) refl
        ]

  pub attach-progress :
      (request : ClientRequest) (ss : RspSessionState)
      → progress (attach backend config request ss) ≡ progress ss
  unfolding progress attach set_h_cert
  attach-progress request ss = refl

  take_keeps :
      (now : ℕ) (given : Option EligibilityData) (ss windowed : RspSessionState)
      → take_eligibility backend now given ss ≡ ok windowed
      → progress ss ≡ progress windowed
  unfolding take_eligibility progress
  take_keeps now given ss windowed h = bind_expect given (api_error "8.1" "6.1") _ h λ elig e₁ h₁.
      bind_expect ss.expiry (api_error "0.1" "2.2") _ h₁ λ expiry e₂ h₂.
        bind_guard (not (is_empty expiry)) (api_error "0.1" "2.2") _ h₂ λ _ h₃.
          bind_expect (decode_expiry expiry) (api_error "0.1" "2.2") _ h₃
            λ n e₄ h₄. bind_guard (not (ltb n now)) (api_error "0.1" "1.4") _ h₄ λ _ h₅. cc

  window_keeps :
      (moment : Moment) (request : ClientRequest) (ss windowed : RspSessionState)
      → zk_window backend config moment request ss ≡ ok windowed
      → progress ss ≡ progress windowed
  unfolding zk_window
  window_keeps moment request ss windowed h = elim (Bool-cases config.zk_mode) [
    | inl zk ↦ take_keeps moment.now request.signed1.eligibility_data ss windowed (rw zk at h)
    | inr plain ↦ let same : ss ≡ windowed = cc (rw plain at h) in ap progress same
  ]

  spend_keeps :
      (l_spent : Option MerkleAccumulator) (auth_tok : Option Bytes) (ss ss' : RspSessionState)
      → spend_by backend ss l_spent auth_tok ≡ ok ss'
      → progress ss ≡ progress ss'
  unfolding spend_by progress
  spend_keeps none auth_tok ss ss' h = cc
  spend_keeps (some l_spent) none ss ss' h = cc
  spend_keeps (some l_spent) (some auth_tok) ss ss' h = elim (Bool-cases (is_empty auth_tok)) [
    | inl empty ↦ let e = rw empty at h in cc
    | inr full ↦
        let e = rw full at h in
        bind_ok (add backend.sha256 l_spent (to_hex auth_tok)) _ e λ acc e₁ h₁. cc
  ]

  verify_keeps :
      (request : ClientRequest) (ss verified : RspSessionState)
      → zk_verify backend config request ss ≡ ok verified
      → progress ss ≡ progress verified
  unfolding zk_verify verify_eligibility spend_token
  verify_keeps request ss verified h = elim (Bool-cases config.zk_mode) [
    | inl zk ↦
        let e = rw zk at h in
        bind_ok (check_bundle backend (backend.sha256 request.euicc_certificate_bin) ss) _ e
          λ _ e₁ h₁. spend_keeps ss.l_spent ss.auth_tok ss verified h₁
    | inr plain ↦ let same : ss ≡ verified = cc (rw plain at h) in ap progress same
  ]

  -- A client that passes the checks adds what an answer holds, and nothing else.
  pub check_client-answered :
      (moment : Moment) (request : ClientRequest) (ss ss' : RspSessionState)
      (response : AuthenticateResponse)
      → check_client backend config moment request ss ≡ ok (ss', response)
      → (eid : Text) × (matching_id : Text) × (metadata : ProfileMetadata) × (signature2 : Bytes)
        × (progress ss' ≡ answer_with eid matching_id metadata signature2 (progress ss))
  unfolding Passed answer progress answer_with
  check_client-answered moment request ss ss' response h =
      let (windowed, verified, eid, m, iccid, c, s, window, fresh, names, zk, answered) =
        check_client-Passed backend config moment request ss ss' response h in
      let named : RspSessionState = record windowed {
        eid = some (backend.to_text eid);
        matching_id = some m;
      } in
      let before : progress ss ≡ progress windowed =
        window_keeps moment request ss windowed window in
      let after : progress named ≡ progress verified = verify_keeps request named verified zk in
      bind_ok (backend.codec.h2b (backend.swap_nibbles (backend.b2h iccid))) _ answered
        λ iccid_bin e₁ h₁.
          let metadata = profile_metadata backend config m iccid_bin in
          bind_ok (gen_store_metadata_request backend.ciphers backend.tlv backend.codec metadata) _
            h₁
            λ bin e₂ h₂. bind_ok (backend.codec.h2b verified.transaction_id) _ h₂ λ id e₃ h₃.
              bind_ok (backend.encode_smdp_signed2 id) _ h₃ λ signed2 e₄ h₄.
                let signature2 : Bytes =
                  0x5f
                  ∷ 0x37
                  ∷ 0x40
                  ∷ backend.codec.dp_pb_sign
                      (signed2 ++ (0x5f ∷ 0x37 ∷ 0x40 ∷ request.signature1)) in
                let same : record verified {
                  profile_metadata = some metadata;
                  smdp_signature2_do = some signature2;
                }
                    ≡ ss' =
                  cc in
                (
                  backend.to_text eid,
                  m,
                  metadata,
                  signature2,
                  rw (← same) (
                      ap
                        (λ (p : Progress). record p {
                          profile_metadata = some metadata;
                          smdp_signature2_do = some signature2;
                        })
                        (sym after)
                      ∙ ap (answer_with (backend.to_text eid) m metadata signature2) (sym before)),
                )

  -- A download agrees on keys for a session whose client has been answered.
  pub prepare_package-bound :
      (moment : Moment) (id : Text) (content : Content) (ss ss' : RspSessionState)
      (bpp : BoundProfilePackage)
      → prepare_package backend config moment id content ss ≡ ok (ss', bpp)
      → (signature2 : Bytes) × (m : Text) × (euicc_otpk : Bytes) × (smdp_otpk : Bytes)
        × (host_id : Bytes) × (secret : Bytes) × (ss.smdp_signature2_do ≡ some signature2)
        × (ss.matching_id ≡ some m)
        × (progress ss' ≡ bind_with euicc_otpk smdp_otpk host_id secret (progress ss))
  unfolding prepare_package agree_keys bind_profile Confirmed progress bind_with
  prepare_package-bound moment id content ss ss' bpp h =
      bind_ok (check_download backend config id content ss) _ h λ signed2 e₁ h₁.
        let (_, _, _, _, signature2, _, _, _, _, found, _, _) =
          confirmed backend config id content ss signed2 e₁ in
        bind_ok (agree_keys backend config moment signed2 ss) _ h₁ λ agreed e₂ h₂.
          bind_ok (backend.codec.exchange moment.one_time_key signed2.euicc_otpk) _ e₂
            λ secret e₃ h₃. bind_ok (bind_profile backend config agreed) _ h₂ λ bpp' e₄ h₄.
              bind_expect agreed.matching_id attribute_error _ e₄ λ m e₅ h₅. (
                signature2,
                m,
                signed2.euicc_otpk,
                backend.public_point moment.one_time_key,
                own_host_id,
                secret,
                found,
                cc,
                cc,
              )
