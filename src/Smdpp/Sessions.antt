-- ===== src/Smdpp/Sessions.antt =====
-- What `cancelSession` of osmo-smdpp.py does to the session store, and `handleNotification` in a module
-- below.
pub mod Notifications
use zk_e_sim_smdp.Common.{
  Bool, true, false, List, String, ◌||◌, Option, none, some, ◌≡◌, ◌⊎◌, inl, inr, refl,
  if◌then◌else◌,
}
use zk_e_sim_smdp.Common.Outcome as O
use mathlib.Core.Path.{subst}
use zk_e_sim_smdp.Common.Outcome.{
  Outcome, ok, err, api_error, index_error, assertion_error, extension_not_found, bind_ok,
  bind_guard, bind_expect, guard_ok, expect_ok, Raised,
}
use zk_e_sim_smdp.Common.Action.{lift_raised, lift_returned, lift_either}
use zk_e_sim_smdp.Common.Bytes.{Bytes, beq, beq→eq}
use zk_e_sim_smdp.Common.Hex.{Text}
use zk_e_sim_smdp.Session.{RspSessionState}
use zk_e_sim_smdp.Session.Store
use zk_e_sim_smdp.Session.Store.{SessionStore, get-put, get-delete, contains-get}
use zk_e_sim_smdp.Smdpp.{
  Backend, Config, Content, CancelSessionSigned, CancelSessionResponse, cancel_session_ok,
  cancel_session_error, PendingNotification, profile_installation_result, other_signed_notification,
  unsigned_notification, field,
}
use zk_e_sim_smdp.Smdpp.Finish.{
  is_member, session_verify, signed_end, end_found, check_cancel, end_session, cancel_session,
  check_other_notification, finish_installation, handle_pending, handle_notification,
}

module _ (backend : Backend) (config : Config) where
  end_session_refused :
      (id : Text) (ss : RspSessionState) (r : CancelSessionResponse) (rss rss' : SessionStore)
      {e : Raised}
      → end_session backend config id ss r rss ≡ (err e, rss')
      → rss ≡ rss'
  unfolding end_session
  end_session_refused id ss cancel_session_error rss rss' h = cc
  end_session_refused id ss (cancel_session_ok ecsr sig) rss rss' h =
      lift_raised (check_cancel backend config id ss ecsr sig) _ rss rss' h (λ e s. s)
        λ _ e k. absurd (cc)

  -- A `cancelSession` that raises leaves the store as it was.
  pub cancel_session_refused :
      (content : Content) (rss rss' : SessionStore) {e : Raised}
      → cancel_session backend config content rss ≡ (err e, rss')
      → rss ≡ rss'
  unfolding cancel_session
  cancel_session_refused content rss rss' h =
      lift_raised (field content "transactionId") _ rss rss' h (λ e s. s)
        λ id e₁ h₁.
          lift_raised (O.expect (Store.get id rss) (api_error "8.10.1" "3.9")) _ rss rss' h₁
            (λ e s. s)
            λ ss e₂ h₂.
              lift_raised (field content "cancelSessionResponse") _ rss rss' h₂ (λ e s. s)
                λ b64 e₃ h₃.
                  lift_raised (backend.b64decode b64) _ rss rss' h₃ (λ e s. s)
                    λ bin e₄ h₄.
                      lift_raised (backend.decode_cancel_session bin) _ rss rss' h₄ (λ e s. s)
                        λ r e₅ h₅. end_session_refused id ss r rss rss' h₅

  -- The checks of a signed response for the session of an identifier: the certificate of the session
  -- verifies the signature over the encoded response, the response names the session and an object
  -- identifier of the server's certificate.
  unfoldable pub CancelChecked : Text → RspSessionState → CancelSessionSigned → Bytes → Type 0
  CancelChecked id ss ecsr signature =
      (ecsr_bin : Bytes) × (others : List String) × (registered : List String) × (oid : String)
      × (backend.encode_cancel_session ecsr ≡ ok ecsr_bin)
      × (session_verify backend config ss.euicc_cert signature ecsr_bin ≡ ok true)
      × (backend.subject_alt_name config.dp_auth ≡ some (others, registered))
      × (backend.object_identifier ecsr.smdp_oid ≡ ok oid)
      × ((is_member oid others || is_member oid registered) ≡ true)
      × (backend.codec.h2b id ≡ ok ecsr.transaction_id)

  check_cancel-CancelChecked :
      (id : Text) (ss : RspSessionState) (ecsr : CancelSessionSigned) (signature : Bytes)
      → check_cancel backend config id ss ecsr signature ≡ ok tt
      → CancelChecked id ss ecsr signature
  unfolding check_cancel CancelChecked
  check_cancel-CancelChecked id ss ecsr signature h =
      bind_ok (backend.encode_cancel_session ecsr) _ h λ ecsr_bin e₁ h₁.
        bind_ok (session_verify backend config ss.euicc_cert signature ecsr_bin) _ h₁ λ valid e₂ h₂.
          bind_guard valid (api_error "8.1" "6.1") _ h₂ λ holds h₃.
            bind_expect (backend.subject_alt_name config.dp_auth) extension_not_found _ h₃
              λ (others, registered) e₃ h₄.
                bind_ok (backend.object_identifier ecsr.smdp_oid) _ h₄ λ oid e₄ h₅.
                  bind_guard (is_member oid others || is_member oid registered)
                    (api_error "8.8" "3.10") _ h₅
                    λ listed h₆. bind_ok (backend.codec.h2b id) _ h₆ λ expected e₅ h₇.
                      let same : ecsr.transaction_id ≡ expected =
                        beq→eq ecsr.transaction_id expected (guard_ok _ _ h₇) in
                      (ecsr_bin, others, registered, oid, e₁, cc, e₃, e₄, listed, cc)

  -- What a request to cancel, a session and the store have to fulfil for the session to be removed.
  unfoldable pub CancelAccepted : Content → Text → SessionStore → SessionStore → Type 0
  CancelAccepted content id rss rss' =
      (ss : RspSessionState) × (b64 : Text) × (bin : Bytes) × (ecsr : CancelSessionSigned)
      × (signature : Bytes) × (Store.get id rss ≡ some ss)
      × (field content "transactionId" ≡ ok id)
      × (field content "cancelSessionResponse" ≡ ok b64)
      × (backend.b64decode b64 ≡ ok bin)
      × (backend.decode_cancel_session bin ≡ ok (cancel_session_ok ecsr signature))
      × CancelChecked id ss ecsr signature
      × (rss' ≡ Store.delete id rss)

  end_session_accepted :
      (id id' : Text) (ss : RspSessionState) (r : CancelSessionResponse) (rss rss' : SessionStore)
      → end_session backend config id ss r rss ≡ (ok (some id'), rss')
      → (ecsr : CancelSessionSigned) × (signature : Bytes) × (r ≡ cancel_session_ok ecsr signature)
        × CancelChecked id ss ecsr signature
        × (rss' ≡ Store.delete id rss)
        × (id ≡ id')
  unfolding end_session
  end_session_accepted id id' ss cancel_session_error rss rss' h = absurd (cc)
  end_session_accepted id id' ss (cancel_session_ok ecsr sig) rss rss' h =
      lift_returned (check_cancel backend config id ss ecsr sig) _ rss rss' h
        λ u e k. (ecsr, sig, refl, check_cancel-CancelChecked id ss ecsr sig e, cc, cc)

  removed_only :
      (content : Content) (id : Text) (rss rss' : SessionStore)
      → CancelAccepted content id rss rss'
      → (other : Text) → Store.get other rss' ≡ (if beq id other then none else Store.get other rss)
  unfolding CancelAccepted
  removed_only content id rss rss' (_, _, _, _, _, _, _, _, _, _, _, same) other =
      rw same (get-delete id other rss)

  unfoldable pub Cancelled : Content → SessionStore → SessionStore → Text → Type 0
  Cancelled content rss rss' id =
      CancelAccepted content id rss rss'
      × ((other : Text)
          → Store.get other rss' ≡ (if beq id other then none else Store.get other rss))

  -- A `cancelSession` that returns an identifier returns that of the request; the response in the
  -- request names the session of that identifier and an object identifier of the server's certificate,
  -- the certificate of the session verifies the signature over it; and that session is removed, every
  -- other one as it was.
  pub cancel_session_accepted :
      (content : Content) (rss rss' : SessionStore) (id : Text)
      → cancel_session backend config content rss ≡ (ok (some id), rss')
      → Cancelled content rss rss' id
  unfolding Cancelled cancel_session CancelAccepted
  cancel_session_accepted content rss rss' id h =
      lift_returned (field content "transactionId") _ rss rss' h λ id₁ e₁ h₁.
        lift_returned (O.expect (Store.get id₁ rss) (api_error "8.10.1" "3.9")) _ rss rss' h₁
          λ ss e₂ h₂.
            lift_returned (field content "cancelSessionResponse") _ rss rss' h₂ λ b64 e₃ h₃.
              lift_returned (backend.b64decode b64) _ rss rss' h₃ λ bin e₄ h₄.
                lift_returned (backend.decode_cancel_session bin) _ rss rss' h₄ λ r e₅ h₅.
                  let (ecsr, sig, signed, checked, deleted, same) =
                    end_session_accepted id₁ id ss r rss rss' h₅ in
                  let it : CancelAccepted content id₁ rss rss' =
                    (ss, b64, bin, ecsr, sig, expect_ok _ _ e₂, e₁, e₃, e₄, cc, checked, deleted) in
                  let moved : CancelAccepted content id rss rss' =
                    subst (λ i. CancelAccepted content i rss rss') same it in
                  (moved, λ other. removed_only content id rss rss' moved other)

  end_session_ignored :
      (id : Text) (ss : RspSessionState) (r : CancelSessionResponse) (rss rss' : SessionStore)
      → end_session backend config id ss r rss ≡ (ok none, rss')
      → rss ≡ rss'
  unfolding end_session
  end_session_ignored id ss cancel_session_error rss rss' h = cc
  end_session_ignored id ss (cancel_session_ok ecsr sig) rss rss' h =
      lift_returned (check_cancel backend config id ss ecsr sig) _ rss rss' h λ _ e k. absurd (cc)

  -- A `cancelSession` that returns no identifier leaves the store as it was.
  pub cancel_session_ignored :
      (content : Content) (rss rss' : SessionStore)
      → cancel_session backend config content rss ≡ (ok none, rss')
      → rss ≡ rss'
  unfolding cancel_session
  cancel_session_ignored content rss rss' h =
      lift_returned (field content "transactionId") _ rss rss' h λ id e₁ h₁.
        lift_returned (O.expect (Store.get id rss) (api_error "8.10.1" "3.9")) _ rss rss' h₁
          λ ss e₂ h₂.
            lift_returned (field content "cancelSessionResponse") _ rss rss' h₂ λ b64 e₃ h₃.
              lift_returned (backend.b64decode b64) _ rss rss' h₃ λ bin e₄ h₄.
                lift_returned (backend.decode_cancel_session bin) _ rss rss' h₄
                  λ r e₅ h₅. end_session_ignored id ss r rss rss' h₅
