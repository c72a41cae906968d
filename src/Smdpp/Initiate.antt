-- ===== src/Smdpp/Initiate.antt =====
-- The handler `initiateAutentication` of osmo-smdpp.py.
use zk_e_sim_smdp.Common.{not, Option, none, some, List, [], ◌∷◌, ◌++◌, length, ◌==◌, if◌then◌else◌}
use zk_e_sim_smdp.Common.Outcome
use zk_e_sim_smdp.Common.Outcome.{
  Outcome, ok, err, value_error, assertion_error, type_error, index_error, api_error,
}
use zk_e_sim_smdp.Common.Action.{Action, pure, lift, gets, modify, guard, expect, ◌>>=◌, ◌>>◌}
use zk_e_sim_smdp.Common.Bytes.{Bytes, beq}
use zk_e_sim_smdp.Common.Hex.{Text}
use zk_e_sim_smdp.X509.{Certificate, cert_get_subject_key_id}
use zk_e_sim_smdp.Session.{RspSessionState, new_session}
use zk_e_sim_smdp.Session.Store
use zk_e_sim_smdp.Session.Store.{SessionStore}
use zk_e_sim_smdp.Smdpp.{Backend, Config, Moment, Content, EuiccInfo1, field}
use zk_e_sim_smdp.Smdpp.Certs.{validate_certificate_chain, select_ci_cert}
use zk_e_sim_smdp.Smdpp.Eligibility.{setup_mno_values}

-- The response, before its byte strings are written in base 64.
pub record InitiateResponse : Type 0 where
  pub server_signed1 : Bytes
  pub server_signature1 : Bytes
  pub transaction_id : Text
  pub euicc_ci_pkid_to_be_used : Bytes
  pub server_certificate : Bytes
  pub zk_auth_token_expiry : Option Bytes

-- `pkid_list + euiccInfo1['euiccCiPKIdListForSigningV3']`, where that is there
unfoldable pub pkid_list : EuiccInfo1 → List Bytes
pkid_list info = elim info.pkids_for_signing_v3 [
  | none ↦ info.pkids_for_signing
  | some v3 ↦ info.pkids_for_signing ++ v3
]

module _ (backend : Backend) (config : Config) where
  -- `if verification_pkid_list and not self.validate_certificate_chain_for_verification(...)`
  unfoldable pub check_verification_chain : Option (List Bytes) → Outcome (Unit {0})
  check_verification_chain none = ok tt
  check_verification_chain (some []) = ok tt
  check_verification_chain (some (x ∷ xs)) =
      Outcome.◌>>=◌ (validate_certificate_chain backend config (x ∷ xs))
        λ valid. Outcome.guard valid (api_error "8.8.4" "3.7")

  -- The checks of the request: its challenge, and the issuer that the session will use.
  unfoldable pub check_initiate : Content → Outcome (Bytes × Certificate)
  check_initiate content = Outcome.◌>>=◌ (field content "smdpAddress") λ address.
      Outcome.◌>>=◌ (Outcome.guard (beq address config.server_hostname) (api_error "8.8.1" "3.8"))
        λ _. Outcome.◌>>=◌ (field content "euiccChallenge") λ challenge_b64.
          Outcome.◌>>=◌ (backend.b64decode challenge_b64) λ challenge.
            Outcome.◌>>=◌ (Outcome.guard (length challenge == 16) value_error) λ _.
              Outcome.◌>>=◌ (field content "euiccInfo1") λ info_b64.
                Outcome.◌>>=◌ (backend.b64decode info_b64) λ info_bin.
                  Outcome.◌>>=◌ (backend.decode_euicc_info1 info_bin) λ info.
                    Outcome.◌>>=◌ (check_verification_chain info.pkids_for_verification) λ _.
                      Outcome.◌>>=◌ (select_ci_cert backend config (pkid_list info)) λ selected.
                        Outcome.◌>>=◌ (Outcome.expect selected (api_error "8.8.2" "3.1"))
                          λ ci_cert. ok (challenge, ci_cert)

  -- The session that is put into the store.
  unfoldable pub open_session : Moment → Bytes → Certificate → Outcome RspSessionState
  open_session moment challenge ci_cert =
      Outcome.◌>>=◌ (cert_get_subject_key_id ci_cert) λ ci_cert_id.
        let ss = record (new_session moment.uuid moment.random ci_cert_id) {
          euicc_challenge = some challenge;
        } in
        if config.zk_mode then setup_mno_values backend ss else ok ss

  -- `initiateAutentication`
  unfoldable pub initiate_authentication : Moment → Content → Action SessionStore InitiateResponse
  initiate_authentication moment content = do
    (challenge, ci_cert) ← lift (check_initiate content)
    rss ← gets (λ rss. rss)
    guard (not (Store.contains moment.uuid rss)) assertion_error
    transaction_id ← lift (backend.codec.h2b moment.uuid)
    server_signed1 ← lift (
        backend.encode_server_signed1 (record {
          transaction_id = transaction_id;
          euicc_challenge = challenge;
          server_address = config.server_hostname;
          server_challenge = moment.random;
        }))
    aki ← expect config.dp_auth.auth_key_id index_error
    ci_cert_id ← lift (cert_get_subject_key_id ci_cert)
    modify (Store.put moment.uuid (new_session moment.uuid moment.random ci_cert_id))
    ss ← lift (open_session moment challenge ci_cert)
    modify (Store.put moment.uuid ss)
    pure (record {
      server_signed1 = server_signed1;
      server_signature1 = 0x5f ∷ 0x37 ∷ 0x40 ∷ backend.dp_auth_sign server_signed1;
      transaction_id = moment.uuid;
      euicc_ci_pkid_to_be_used = 0x04 ∷ 0x14 ∷ aki;
      server_certificate = config.dp_auth.der;
      zk_auth_token_expiry = if config.zk_mode then ss.expiry else none;
    })
