-- ===== src/Smdpp/Machine/Effects.antt =====
-- What each handler of osmo-smdpp.py does to each session of the store: a change of the machine.
use zk_e_sim_smdp.Common.{not, Option, none, some, ◌≡◌, inl, inr, Bool-cases, if◌then◌else◌}
use mathlib.Core.Path.{subst}
use zk_e_sim_smdp.Common.Outcome as O
use zk_e_sim_smdp.Common.Outcome.{
  Outcome, ok, err, api_error, assertion_error, index_error, expect_ok, guard_ok,
}
use zk_e_sim_smdp.Common.Action.{lift_either}
use zk_e_sim_smdp.Common.Bytes.{beq, beq→eq}
use zk_e_sim_smdp.Common.Hex.{Text}
use zk_e_sim_smdp.X509.{cert_get_subject_key_id}
use zk_e_sim_smdp.Session.{RspSessionState, new_session}
use zk_e_sim_smdp.Session.Store
use zk_e_sim_smdp.Session.Store.{SessionStore, get-put, get-delete, contains-get}
use zk_e_sim_smdp.Es8p.{encode}
use zk_e_sim_smdp.Smdpp.{Backend, Config, Moment, Content, field}
use zk_e_sim_smdp.Smdpp.Opening.{written_twice, not-true}
use zk_e_sim_smdp.Smdpp.Initiate.{
  InitiateResponse, check_initiate, open_session, initiate_authentication,
}
use zk_e_sim_smdp.Smdpp.Authenticate.{authenticate_client}
use zk_e_sim_smdp.Smdpp.Authenticate.Checks.{
  AuthenticateResponse, parse_client, attach, check_client,
}
use zk_e_sim_smdp.Smdpp.Download.{DownloadResponse, prepare_package, get_bound_profile_package}
use zk_e_sim_smdp.Smdpp.Finish.{cancel_session, handle_notification}
use zk_e_sim_smdp.Smdpp.Sessions.{
  CancelAccepted, Cancelled, cancel_session_refused, cancel_session_accepted,
  cancel_session_ignored,
}
use zk_e_sim_smdp.Smdpp.Sessions.Notifications.{
  NotificationEffect, EndedBy, handle_notification_effect,
}
use zk_e_sim_smdp.Smdpp.Machine.{
  Event, initiate, authenticate, download, cancel, notify, Progress, fresh, Change, unchanged,
  opened, answered, bound_to, cancelled, installed,
}
use zk_e_sim_smdp.Smdpp.Machine.Keeps.{
  progress, open_session-fresh, new_session-fresh, attach-progress, check_client-answered,
  prepare_package-bound,
}

-- What the machine sees of a session that may be there.
unfoldable pub seen : Option RspSessionState → Option Progress
seen none = none
seen (some ss) = some (progress ss)

unfoldable pub view : Text → SessionStore → Option Progress
view id rss = seen (Store.get id rss)

-- A store that differs from another one in one session only.
one_changes :
    (e : Event) (id other : Text) (x y : Option RspSessionState) (rss rss' : SessionStore)
    → Store.get id rss ≡ x
    → Store.get other rss' ≡ (if beq id other then y else Store.get other rss)
    → Change e id (seen x) (seen y)
    → Change e other (view other rss) (view other rss')
unfolding view
one_changes e id other x y rss rss' found now change = elim (Bool-cases (beq id other)) [
  | inl same ↦
      let it : id ≡ other = beq→eq id other same in
      let moved : Change e other (seen x) (seen y) =
        subst (λ i. Change e i (seen x) (seen y)) it change in
      let after : Store.get other rss' ≡ y = rw same at now in rw (after, ← it, found) change
  | inr apart ↦
      let after : Store.get other rss' ≡ Store.get other rss = rw apart at now in
      rw after (unchanged e other (seen (Store.get other rss)))
]

module _ (backend : Backend) (config : Config) where
  pub cancel_session-Change :
      (content : Content) (rss rss' : SessionStore) (o : Outcome (Option Text)) (id : Text)
      → cancel_session backend config content rss ≡ (o, rss')
      → Change cancel id (view id rss) (view id rss')
  unfolding Cancelled CancelAccepted seen
  cancel_session-Change content rss rss' (err e) id h =
      let same = cancel_session_refused backend config content rss rss' h in
      rw (← same) (unchanged cancel id (view id rss))
  cancel_session-Change content rss rss' (ok (some i)) id h =
      let ((ss, _, _, _, _, found, _, _, _, _, _, _), others) =
        cancel_session_accepted backend config content rss rss' i h in
      one_changes cancel i id (some ss) none rss rss' found (others id) (cancelled i (progress ss))
  cancel_session-Change content rss rss' (ok none) id h =
      rw (← cancel_session_ignored backend config content rss rss' h)
        (unchanged cancel id (view id rss))

  pub handle_notification-Change :
      (content : Content) (rss rss' : SessionStore) (o : Outcome (Unit {0})) (id : Text)
      → handle_notification backend config content rss ≡ (o, rss')
      → Change notify id (view id rss) (view id rss')
  unfolding NotificationEffect EndedBy seen
  handle_notification-Change content rss rss' o id h =
      elim (handle_notification_effect backend config content rss rss' o h) [
        | inl same ↦ rw (← same) (unchanged notify id (view id rss))
        | inr (_, _, t, _, _, _, _, _, (ss, _, found, _, _, deleted)) ↦
            let i = backend.b2h t in
            one_changes notify i id (some ss) none rss rss' found (rw deleted (get-delete i id rss))
              (installed i (progress ss))
      ]

  pub get_bound_profile_package-Change :
      (moment : Moment) (content : Content) (rss rss' : SessionStore) (o : Outcome DownloadResponse)
      (other : Text)
      → get_bound_profile_package backend config moment content rss ≡ (o, rss')
      → Change download other (view other rss) (view other rss')
  unfolding get_bound_profile_package seen
  get_bound_profile_package-Change moment content rss rss' o other h =
      let stays : rss ≡ rss' → Change download other (view other rss) (view other rss') =
        λ same. rw (← same) (unchanged download other (view other rss)) in
      lift_either (field content "transactionId") _ rss rss' h stays λ id e₁ h₁.
        lift_either (O.expect (Store.get id rss) (api_error "8.10.1" "3.9")) _ rss rss' h₁ stays
          λ ss e₂ h₂.
            lift_either (prepare_package backend config moment id content ss) _ rss rss' h₂ stays
              λ (ss', bpp) e₃ h₃.
                let (s, m, a, b, c, d, has_signature, has_name, after) =
                  prepare_package-bound backend config moment id content ss ss' bpp e₃ in
                let change : Change download id (some (progress ss)) (some (progress ss')) =
                  rw after (
                    bound_to id (progress ss) s m a b c d (unfold progress in has_signature)
                      (unfold progress in has_name)) in
                let put_it : Change download other (view other rss)
                    (view other (Store.put id ss' rss)) =
                  one_changes download id other (some ss) (some ss') rss (Store.put id ss' rss)
                    (expect_ok _ _ e₂) (get-put id other ss' rss) change in
                lift_either (encode backend.ciphers backend.tlv backend.codec ss' bpp) _
                  (Store.put id ss' rss) rss' h₃ (λ same. rw (← same) put_it)
                  λ bin e₄ h₄. let now : Store.put id ss' rss ≡ rss' = cc in rw (← now) put_it

  pub authenticate_client-Change :
      (moment : Moment) (content : Content) (rss rss' : SessionStore)
      (o : Outcome AuthenticateResponse) (other : Text)
      → authenticate_client backend config moment content rss ≡ (o, rss')
      → Change authenticate other (view other rss) (view other rss')
  unfolding authenticate_client seen
  authenticate_client-Change moment content rss rss' o other h =
      let stays : rss ≡ rss' → Change authenticate other (view other rss) (view other rss') =
        λ same. rw (← same) (unchanged authenticate other (view other rss)) in
      lift_either (parse_client backend config content) _ rss rss' h stays λ request e₁ h₁.
        let id = request.transaction_id in
        lift_either (O.expect (Store.get id rss) (api_error "8.10.1" "3.9")) _ rss rss' h₁ stays
          λ ss e₂ h₂.
            let found = expect_ok (Store.get id rss) _ e₂ in
            let attached = attach backend config request ss in
            let kept : progress attached ≡ progress ss =
              attach-progress backend config request ss in
            let put_once : Change authenticate other (view other rss)
                (view other (Store.put id attached rss)) =
              one_changes authenticate id other (some ss) (some attached) rss
                (Store.put id attached rss) found (get-put id other attached rss)
                (rw kept (unchanged authenticate id (some (progress ss)))) in
            lift_either (check_client backend config moment request attached) _
              (Store.put id attached rss) rss' h₂ (λ same. rw (← same) put_once)
              λ (ss', response) e₃ h₃.
                let (eid, m, metadata, s, after) =
                  check_client-answered backend config moment request attached ss' response e₃ in
                let change : Change authenticate id (some (progress ss)) (some (progress ss')) =
                  rw (after, kept) (answered id (progress ss) eid m metadata s) in
                let now : Store.put id ss' (Store.put id attached rss) ≡ rss' = cc in
                rw (← now) (
                  one_changes authenticate id other (some ss) (some ss') rss _ found
                    (written_twice id other attached ss' rss) change)

  pub initiate_authentication-Change :
      (moment : Moment) (content : Content) (rss rss' : SessionStore) (o : Outcome InitiateResponse)
      (other : Text)
      → initiate_authentication backend config moment content rss ≡ (o, rss')
      → Change initiate other (view other rss) (view other rss')
  unfolding initiate_authentication seen
  initiate_authentication-Change moment content rss rss' o other h =
      let stays : rss ≡ rss' → Change initiate other (view other rss) (view other rss') =
        λ same. rw (← same) (unchanged initiate other (view other rss)) in
      let id = moment.uuid in
      lift_either (check_initiate backend config content) _ rss rss' h stays
        λ (challenge, ci_cert) e₁ h₁.
          lift_either (O.guard (not (Store.contains id rss)) assertion_error) _ rss rss' h₁ stays
            λ _ e₂ h₂.
              let free : Store.get id rss ≡ none =
                contains-get id rss (not-true _ (guard_ok _ _ e₂)) in
              let open_with : (ss : RspSessionState) (after : SessionStore)
                  → progress ss ≡ fresh id
                  → (Store.get other after
                      ≡ (if beq id other then some ss else Store.get other rss))
                  → Change initiate other (view other rss) (view other after) =
                λ ss after is_fresh now.
                  one_changes initiate id other none (some ss) rss after free now
                    (rw is_fresh (opened id)) in
              lift_either (backend.codec.h2b id) _ rss rss' h₂ stays λ transaction_id e₃ h₃.
                lift_either
                  (backend.encode_server_signed1 (record {
                    transaction_id = transaction_id;
                    euicc_challenge = challenge;
                    server_address = config.server_hostname;
                    server_challenge = moment.random;
                  }))
                  _ rss rss' h₃ stays
                  λ signed1 e₄ h₄.
                    lift_either (O.expect config.dp_auth.auth_key_id index_error) _ rss rss' h₄
                      stays
                      λ aki e₅ h₅.
                        lift_either (cert_get_subject_key_id ci_cert) _ rss rss' h₅ stays
                          λ ci_cert_id e₆ h₆.
                            let ss₀ = new_session id moment.random ci_cert_id in
                            lift_either (open_session backend config moment challenge ci_cert) _
                              (Store.put id ss₀ rss) rss' h₆
                              (λ same.
                                open_with ss₀ rss' (new_session-fresh id moment.random ci_cert_id)
                                  (rw (← same) (get-put id other ss₀ rss)))
                              λ ss e₇ h₇.
                                let now : Store.put id ss (Store.put id ss₀ rss) ≡ rss' = cc in
                                open_with ss rss'
                                  (open_session-fresh backend config moment challenge ci_cert ss e₇)
                                  (rw (← now) (written_twice id other ss₀ ss rss))
