-- ===== src/Smdpp/Finish.antt =====
-- The handlers `cancelSession` and `handleNotification` of osmo-smdpp.py, which end a session.
use zk_e_sim_smdp.Common.{String, Bool, false, ◌||◌, Option, none, some, List, [], ◌∷◌}
use zk_e_sim_smdp.Common.Outcome as O
use zk_e_sim_smdp.Common.Outcome.{
  Outcome, ok, err, value_error, index_error, attribute_error, generic_error, extension_not_found,
  api_error,
}
use zk_e_sim_smdp.Common.Action.{Action, pure, lift, gets, modify, guard, expect, ◌>>=◌, ◌>>◌}
use zk_e_sim_smdp.Common.Bytes.{Bytes, beq}
use zk_e_sim_smdp.Common.Hex.{Text}
use zk_e_sim_smdp.X509.{
  Certificate, cert_get_auth_key_id, new_set, add_intermediate_cert, verify_cert_chain,
}
use zk_e_sim_smdp.Session.{RspSessionState}
use zk_e_sim_smdp.Session.Store
use zk_e_sim_smdp.Session.Store.{SessionStore}
use zk_e_sim_smdp.Smdpp.{
  Backend, Config, Content, CancelSessionSigned, CancelSessionResponse, cancel_session_ok,
  cancel_session_error, PendingNotification, profile_installation_result, other_signed_notification,
  unsigned_notification, OtherSignedNotification, field,
}
use zk_e_sim_smdp.Smdpp.Certs.{ci_get_cert_for_pkid}
use zk_e_sim_smdp.Smdpp.Authenticate.Checks.{ecdsa_verify}
use zk_e_sim_smdp.Pmo.{Operation, from_bitstring}
use text.Mathlib.Text.{◌==◌ as str_eq}

-- `x in xs`, of a list of texts
unfoldable pub is_member : String → List String → Bool
is_member x [] = false
is_member x (y ∷ ys) = str_eq x y || is_member x ys

module _ (backend : Backend) (config : Config) where
  -- `_ecdsa_verify` by the certificate of a session, which may not be there
  unfoldable pub session_verify : Option Certificate → Bytes → Bytes → Outcome Bool
  session_verify none signature text = err attribute_error
  session_verify (some cert) signature text = ecdsa_verify backend config cert signature text

  -- The checks of `cancelSession` on a response that is no error.
  unfoldable pub check_cancel :
      Text → RspSessionState → CancelSessionSigned → Bytes → Outcome (Unit {0})
  unfolding is_member
  check_cancel transaction_id ss ecsr signature =
      O.◌>>=◌ (backend.encode_cancel_session ecsr) λ ecsr_bin.
        O.◌>>=◌ (session_verify ss.euicc_cert signature ecsr_bin) λ valid.
          O.◌>>=◌ (O.guard valid (api_error "8.1" "6.1")) λ _.
            O.◌>>=◌ (O.expect (backend.subject_alt_name config.dp_auth) extension_not_found)
              λ (others, registered). O.◌>>=◌ (backend.object_identifier ecsr.smdp_oid) λ smdp_oid.
                O.◌>>=◌
                  (O.guard (is_member smdp_oid others || is_member smdp_oid registered)
                    (api_error "8.8" "3.10"))
                  λ _. O.◌>>=◌ (backend.codec.h2b transaction_id) λ expected.
                    O.guard (beq ecsr.transaction_id expected) (api_error "8.10.1" "3.9")

  -- An error response leaves the session and returns nothing.
  unfoldable pub end_session :
      Text → RspSessionState → CancelSessionResponse → Action SessionStore (Option Text)
  end_session transaction_id ss cancel_session_error = pure none
  end_session transaction_id ss (cancel_session_ok ecsr signature) = do
    lift (check_cancel transaction_id ss ecsr signature)
    modify (Store.delete transaction_id)
    pure (some transaction_id)

  -- `cancelSession`
  unfoldable pub cancel_session : Content → Action SessionStore (Option Text)
  unfolding end_session
  cancel_session content = do
    transaction_id ← lift (field content "transactionId")
    rss ← gets (λ rss. rss)
    ss ← expect (Store.get transaction_id rss) (api_error "8.10.1" "3.9")
    response_b64 ← lift (field content "cancelSessionResponse")
    response_bin ← lift (backend.b64decode response_b64)
    response ← lift (backend.decode_cancel_session response_bin)
    end_session transaction_id ss response

  -- The chain of a notification's certificate, where every exception is passed on.
  unfoldable pub check_notification_chain : Certificate → Certificate → Outcome (Unit {0})
  check_notification_chain euicc_cert eum_cert =
      O.◌>>=◌ (cert_get_auth_key_id eum_cert) λ ci_cert_id.
        O.◌>>=◌ (ci_get_cert_for_pkid config.ci_certs ci_cert_id) λ found.
          O.◌>>=◌ (O.expect found attribute_error) λ ci_cert.
            O.◌>>=◌ (new_set backend.signed_by ci_cert) λ cs.
              O.◌>>=◌ (add_intermediate_cert backend.signed_by cs eum_cert)
                λ cs'. verify_cert_chain backend.signed_by cs' euicc_cert 100

  -- A notification of another operation only reports: the store is not used.
  unfoldable pub check_other_notification : OtherSignedNotification → Outcome Operation
  check_other_notification n = O.◌>>=◌ (backend.encode_certificate n.euicc_certificate) λ euicc_bin.
      O.◌>>=◌ (backend.encode_certificate n.eum_certificate) λ eum_bin.
        O.◌>>=◌ (O.expect (backend.load_certificate euicc_bin) value_error) λ euicc_cert.
          O.◌>>=◌ (O.expect (backend.load_certificate eum_bin) value_error) λ eum_cert.
            O.◌>>=◌ (check_notification_chain euicc_cert eum_cert) λ _.
              O.◌>>=◌ (backend.encode_notification_metadata n.tbs) λ tbs_bin.
                O.◌>>=◌ (ecdsa_verify backend config euicc_cert n.signature tbs_bin) λ valid.
                  O.◌>>=◌ (O.guard valid generic_error) λ _.
                    O.◌>>=◌ (from_bitstring n.operation) λ pmo.
                      O.◌>>=◌ (O.expect (first_name euicc_cert.serial_number) index_error)
                        λ eid. ok pmo
    where
      first_name : List String → Option String
      first_name [] = none
      first_name (x ∷ xs) = some x

  -- `if not self._ecdsa_verify(...): raise`, and the removal of the session
  unfoldable pub signed_end : Text → Bool → Action SessionStore (Unit {0})
  signed_end id valid = do guard valid generic_error; modify (Store.delete id)

  -- What is done with the session of the notification, where there is one.
  unfoldable pub end_found :
      Bytes → Bytes → Bytes → Option RspSessionState → Action SessionStore (Unit {0})
  unfolding signed_end
  end_found transaction_id pird signature none = pure tt
  end_found transaction_id pird signature (some ss) = do
    pird_bin ← lift (backend.encode_installation_result pird)
    valid ← lift (session_verify ss.euicc_cert signature pird_bin)
    signed_end (backend.b2h transaction_id) valid

  -- The result of an installation: a session of that name ends, where the signature holds.
  unfoldable pub finish_installation : Bytes → Bytes → Bytes → Action SessionStore (Unit {0})
  unfolding end_found
  finish_installation transaction_id pird signature = do
    rss ← gets (λ rss. rss)
    end_found transaction_id pird signature (Store.get (backend.b2h transaction_id) rss)

  unfoldable pub handle_pending : PendingNotification → Action SessionStore (Unit {0})
  unfolding finish_installation
  handle_pending (profile_installation_result transaction_id pird signature) =
      finish_installation transaction_id pird signature
  handle_pending (other_signed_notification n) =
      lift (check_other_notification n) >>= λ pmo. pure tt
  handle_pending unsigned_notification = lift (err value_error)

  -- `handleNotification`
  unfoldable pub handle_notification : Content → Action SessionStore (Unit {0})
  unfolding handle_pending
  handle_notification content = do
    pending_b64 ← lift (field content "pendingNotification")
    pending_bin ← lift (backend.b64decode pending_b64)
    pending ← lift (backend.decode_pending_notification pending_bin)
    handle_pending pending
