-- ===== src/Smdpp/Sessions/Notifications.antt =====
-- What `handleNotification` of osmo-smdpp.py does to the session store.
use zk_e_sim_smdp.Common.{Bool, true, false, Option, none, some, ◌≡◌, ◌⊎◌, inl, inr, refl}
use zk_e_sim_smdp.Common.Outcome.{Outcome, ok}
use zk_e_sim_smdp.Common.Action.{lift_either}
use zk_e_sim_smdp.Common.Bytes.{Bytes}
use zk_e_sim_smdp.Common.Hex.{Text}
use zk_e_sim_smdp.Session.{RspSessionState}
use zk_e_sim_smdp.Session.Store
use zk_e_sim_smdp.Session.Store.{SessionStore, get-put, get-delete, contains-get}
use zk_e_sim_smdp.Smdpp.{
  Backend, Config, Content, PendingNotification, profile_installation_result,
  other_signed_notification, unsigned_notification, field,
}
use zk_e_sim_smdp.Smdpp.Finish.{
  session_verify, signed_end, end_found, check_other_notification, finish_installation,
  handle_pending, handle_notification,
}

module _ (backend : Backend) (config : Config) where
  -- The session of an identifier has ended by an installation result, whose encoding the certificate of
  -- the session verifies under the signature.
  unfoldable pub EndedBy : Text → Bytes → Bytes → SessionStore → SessionStore → Type 0
  EndedBy id pird signature rss rss' =
      (ss : RspSessionState) × (pird_bin : Bytes) × (Store.get id rss ≡ some ss)
      × (backend.encode_installation_result pird ≡ ok pird_bin)
      × (session_verify backend config ss.euicc_cert signature pird_bin ≡ ok true)
      × (rss' ≡ Store.delete id rss)

  signed_effect :
      (id : Text) (ss : RspSessionState) (pird bin signature : Bytes) (rss rss' : SessionStore)
      (o : Outcome (Unit {0})) (valid : Bool)
      → Store.get id rss ≡ some ss
      → backend.encode_installation_result pird ≡ ok bin
      → session_verify backend config ss.euicc_cert signature bin ≡ ok valid
      → signed_end backend config id valid rss ≡ (o, rss')
      → (rss ≡ rss') ⊎ EndedBy id pird signature rss rss'
  unfolding EndedBy signed_end
  signed_effect id ss pird bin signature rss rss' o true found coded e h =
      inr (ss, bin, found, coded, e, cc)
  signed_effect id ss pird bin signature rss rss' o false found coded e h = inl (cc)

  finish_installation_effect :
      (transaction_id pird signature : Bytes) (rss rss' : SessionStore) (o : Outcome (Unit {0}))
      → finish_installation backend config transaction_id pird signature rss ≡ (o, rss')
      → (rss ≡ rss') ⊎ EndedBy (backend.b2h transaction_id) pird signature rss rss'
  unfolding finish_installation end_found
  finish_installation_effect transaction_id pird signature rss rss' o h =
      go (Store.get (backend.b2h transaction_id) rss) refl h
    where
      go :
          (r : Option RspSessionState)
          → Store.get (backend.b2h transaction_id) rss ≡ r
          → end_found backend config transaction_id pird signature r rss ≡ (o, rss')
          → (rss ≡ rss') ⊎ EndedBy (backend.b2h transaction_id) pird signature rss rss'
      go none found h = inl (cc)
      go (some ss) found h =
          lift_either (backend.encode_installation_result pird) _ rss rss' h inl λ bin e k.
            lift_either (session_verify backend config ss.euicc_cert signature bin) _ rss rss' k inl
              λ valid e' k'.
                signed_effect (backend.b2h transaction_id) ss pird bin signature rss rss' o valid
                  found e e' k'

  -- A notification changes nothing, or ends the session that it names, with a valid signature of the
  -- certificate that the session holds.
  unfoldable pub NotificationEffect : Content → SessionStore → SessionStore → Type 0
  NotificationEffect content rss rss' =
      (rss ≡ rss')
      ⊎ ((b64 : Text) × (bin : Bytes) × (transaction_id : Bytes) × (pird : Bytes)
          × (signature : Bytes) × (field content "pendingNotification" ≡ ok b64)
          × (backend.b64decode b64 ≡ ok bin)
          × (backend.decode_pending_notification bin
              ≡ ok (profile_installation_result transaction_id pird signature))
          × EndedBy (backend.b2h transaction_id) pird signature rss rss')

  handle_pending_effect :
      (content : Content) (b64 : Text) (bin : Bytes) (n : PendingNotification)
      (rss rss' : SessionStore) (o : Outcome (Unit {0}))
      → field content "pendingNotification" ≡ ok b64
      → backend.b64decode b64 ≡ ok bin
      → backend.decode_pending_notification bin ≡ ok n
      → handle_pending backend config n rss ≡ (o, rss')
      → NotificationEffect content rss rss'
  unfolding handle_pending NotificationEffect
  handle_pending_effect content b64 bin (profile_installation_result t p s) rss rss' o f₁ f₂ f₃ h =
      elim (finish_installation_effect t p s rss rss' o h) [
        | inl same ↦ inl same
        | inr ended ↦ inr (b64, bin, t, p, s, f₁, f₂, f₃, ended)
      ]
  handle_pending_effect content b64 bin (other_signed_notification n) rss rss' o f₁ f₂ f₃ h =
      lift_either (check_other_notification backend config n) _ rss rss' h inl λ pmo e k. inl (cc)
  handle_pending_effect content b64 bin unsigned_notification rss rss' o f₁ f₂ f₃ h = inl (cc)

  -- Whatever `handleNotification` returns or raises, the store is as it was, or the request carries the
  -- result of an installation, the session of the identifier in that result is removed and its
  -- certificate verifies the result's signature.
  pub handle_notification_effect :
      (content : Content) (rss rss' : SessionStore) (o : Outcome (Unit {0}))
      → handle_notification backend config content rss ≡ (o, rss')
      → NotificationEffect content rss rss'
  unfolding handle_notification
  handle_notification_effect content rss rss' o h =
      lift_either (field content "pendingNotification") _ rss rss' h
        (unfold NotificationEffect in inl)
        λ b64 e₁ h₁.
          lift_either (backend.b64decode b64) _ rss rss' h₁ (unfold NotificationEffect in inl)
            λ bin e₂ h₂.
              lift_either (backend.decode_pending_notification bin) _ rss rss' h₂
                (unfold NotificationEffect in inl)
                λ n e₃ h₃. handle_pending_effect content b64 bin n rss rss' o e₁ e₂ e₃ h₃
