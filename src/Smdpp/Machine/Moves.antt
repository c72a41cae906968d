-- ===== src/Smdpp/Machine/Moves.antt =====
-- Which requests to osmo-smdpp.py can change the progress of a session: those that name it and pass
-- their checks.
use zk_e_sim_smdp.Common.{
  not, Option, none, some, ◌≡◌, ◌⊎◌, inl, inr, refl, sym, ap, Bool-cases, if◌then◌else◌,
}
use zk_e_sim_smdp.Common.Outcome as O
use zk_e_sim_smdp.Common.Outcome.{
  Outcome, ok, api_error, assertion_error, index_error, expect_ok, guard_ok,
}
use zk_e_sim_smdp.Common.Action.{lift_either}
use zk_e_sim_smdp.Common.Bytes.{Bytes, beq, beq→eq}
use zk_e_sim_smdp.Common.Hex.{Text}
use zk_e_sim_smdp.X509.{Certificate, cert_get_subject_key_id}
use zk_e_sim_smdp.Session.{RspSessionState, new_session}
use zk_e_sim_smdp.Session.Store
use zk_e_sim_smdp.Session.Store.{SessionStore, get-put, contains-get}
use zk_e_sim_smdp.Es8p.{BoundProfilePackage, encode}
use zk_e_sim_smdp.Smdpp.{Backend, Config, Moment, Content, field}
use zk_e_sim_smdp.Smdpp.Opening.{written_twice, not-true}
use zk_e_sim_smdp.Smdpp.Opening.Writes.{Written, authenticate_client_writes}
use zk_e_sim_smdp.Smdpp.Initiate.{
  InitiateResponse, check_initiate, open_session, initiate_authentication,
}
use zk_e_sim_smdp.Smdpp.Authenticate.{authenticate_client}
use zk_e_sim_smdp.Smdpp.Authenticate.Checks.{
  ClientRequest, AuthenticateResponse, parse_client, attach, check_client,
}
use zk_e_sim_smdp.Smdpp.Download.{DownloadResponse, prepare_package, get_bound_profile_package}
use zk_e_sim_smdp.Smdpp.Machine.Keeps.{progress, attach-progress}
use zk_e_sim_smdp.Smdpp.Machine.Effects.{seen, view}

-- A write to one session leaves the view of another one.
apart_or_named :
    (id other : Text) (y : Option RspSessionState) (rss rss' : SessionStore)
    → Store.get other rss' ≡ (if beq id other then y else Store.get other rss)
    → (view other rss ≡ view other rss') ⊎ (id ≡ other)
unfolding view
apart_or_named id other y rss rss' now = elim (Bool-cases (beq id other)) [
  | inl same ↦ inr (beq→eq id other same)
  | inr apart ↦
      let after : Store.get other rss' ≡ Store.get other rss = rw apart at now in
      inl (ap seen (sym after))
]

-- A write to one session that does not touch its progress leaves every view.
same_progress :
    (id other : Text) (ss ss' : RspSessionState) (rss rss' : SessionStore)
    → Store.get id rss ≡ some ss
    → progress ss' ≡ progress ss
    → Store.get other rss' ≡ (if beq id other then some ss' else Store.get other rss)
    → view other rss ≡ view other rss'
unfolding view seen
same_progress id other ss ss' rss rss' found kept now = elim (Bool-cases (beq id other)) [
  | inl same ↦
      let it : id ≡ other = beq→eq id other same in
      let before : Store.get other rss ≡ some ss = rw (← it) found in
      let after : Store.get other rss' ≡ some ss' = rw same at now in rw (before, after, kept) refl
  | inr apart ↦
      let after : Store.get other rss' ≡ Store.get other rss = rw apart at now in
      ap seen (sym after)
]

module _ (backend : Backend) (config : Config) where
  -- The request opens the session: it passes its checks, and its identifier was free.
  unfoldable pub Opens : Text → Moment → Content → SessionStore → Type 0
  Opens id moment content rss =
      (challenge : Bytes) × (ci_cert : Certificate) × (moment.uuid ≡ id)
      × (check_initiate backend config content ≡ ok (challenge, ci_cert))
      × (Store.get id rss ≡ none)

  -- The request authenticates the client of the session that it names: it passes its checks.
  unfoldable pub Authenticates : Text → Moment → Content → SessionStore → Type 0
  Authenticates id moment content rss =
      (request : ClientRequest) × (ss : RspSessionState) × (ss' : RspSessionState)
      × (response : AuthenticateResponse) × (parse_client backend config content ≡ ok request)
      × (request.transaction_id ≡ id)
      × (Store.get request.transaction_id rss ≡ some ss)
      × (check_client backend config moment request (attach backend config request ss)
          ≡ ok (ss', response))

  -- The request agrees on keys for the session that it names: a package can be bound.
  unfoldable pub Binds : Text → Moment → Content → SessionStore → Type 0
  Binds id moment content rss =
      (ss : RspSessionState) × (ss' : RspSessionState) × (bpp : BoundProfilePackage) × (field
          content "transactionId"
        ≡ ok id)
      × (Store.get id rss ≡ some ss)
      × (prepare_package backend config moment id content ss ≡ ok (ss', bpp))

  pub get_bound_profile_package-Binds :
      (moment : Moment) (content : Content) (rss rss' : SessionStore) (o : Outcome DownloadResponse)
      (other : Text)
      → get_bound_profile_package backend config moment content rss ≡ (o, rss')
      → (view other rss ≡ view other rss') ⊎ Binds other moment content rss
  unfolding get_bound_profile_package Binds
  get_bound_profile_package-Binds moment content rss rss' o other h =
      let stays : rss ≡ rss' → (view other rss ≡ view other rss') ⊎ Binds other moment content rss =
        λ same. inl (ap (view other) same) in
      lift_either (field content "transactionId") _ rss rss' h stays λ id e₁ h₁.
        lift_either (O.expect (Store.get id rss) (api_error "8.10.1" "3.9")) _ rss rss' h₁ stays
          λ ss e₂ h₂.
            lift_either (prepare_package backend config moment id content ss) _ rss rss' h₂ stays
              λ (ss', bpp) e₃ h₃.
                let put_it : (after : SessionStore)
                    → Store.put id ss' rss ≡ after
                    → (view other rss ≡ view other after) ⊎ Binds other moment content rss =
                  λ after same.
                    elim (apart_or_named id other (some ss') rss after
                      (rw (← same) (get-put id other ss' rss))) [
                        | inl kept ↦ inl kept
                        | inr named ↦ inr (
                          ss,
                          ss',
                          bpp,
                          rw (← named) e₁,
                          rw (← named) (expect_ok _ _ e₂),
                          rw (← named) e₃,
                        )
                      ] in
                lift_either (encode backend.ciphers backend.tlv backend.codec ss' bpp) _
                  (Store.put id ss' rss) rss' h₃ (put_it rss') λ bin e₄ h₄. put_it rss' (cc)

  pub authenticate_client-Authenticates :
      (moment : Moment) (content : Content) (rss rss' : SessionStore)
      (o : Outcome AuthenticateResponse) (other : Text)
      → authenticate_client backend config moment content rss ≡ (o, rss')
      → (view other rss ≡ view other rss') ⊎ Authenticates other moment content rss
  unfolding Written Authenticates
  authenticate_client-Authenticates moment content rss rss' o other h =
      elim (authenticate_client_writes backend config moment content rss rss' o h) [
        | inl same ↦ inl (ap (view other) same)
        | inr (request, ss, parsed, found, inl (e, refused, raised, same)) ↦
            let id = request.transaction_id in
            let attached = attach backend config request ss in
            inl (
              same_progress id other ss attached rss rss' found
                (attach-progress backend config request ss)
                (rw same (get-put id other attached rss)))
        | inr (request, ss, parsed, found, inr (ss', response, passed, returned, same)) ↦
            let id = request.transaction_id in
            let attached = attach backend config request ss in
            elim (apart_or_named id other (some ss') rss rss'
              (rw same (written_twice id other attached ss' rss))) [
                | inl kept ↦ inl kept
                | inr named ↦ inr (request, ss, ss', response, parsed, named, found, passed)
              ]
      ]

  pub initiate_authentication-Opens :
      (moment : Moment) (content : Content) (rss rss' : SessionStore) (o : Outcome InitiateResponse)
      (other : Text)
      → initiate_authentication backend config moment content rss ≡ (o, rss')
      → (view other rss ≡ view other rss') ⊎ Opens other moment content rss
  unfolding initiate_authentication Opens
  initiate_authentication-Opens moment content rss rss' o other h =
      let stays : rss ≡ rss' → (view other rss ≡ view other rss') ⊎ Opens other moment content rss =
        λ same. inl (ap (view other) same) in
      let id = moment.uuid in
      lift_either (check_initiate backend config content) _ rss rss' h stays
        λ (challenge, ci_cert) e₁ h₁.
          lift_either (O.guard (not (Store.contains id rss)) assertion_error) _ rss rss' h₁ stays
            λ _ e₂ h₂.
              let free : Store.get id rss ≡ none =
                contains-get id rss (not-true _ (guard_ok _ _ e₂)) in
              let open_it : (ss : RspSessionState) (after : SessionStore)
                  → (Store.get other after
                      ≡ (if beq id other then some ss else Store.get other rss))
                  → (view other rss ≡ view other after) ⊎ Opens other moment content rss =
                λ ss after now. elim (apart_or_named id other (some ss) rss after now) [
                  | inl kept ↦ inl kept
                  | inr named ↦ inr (challenge, ci_cert, named, e₁, rw (← named) free)
                ] in
              lift_either (backend.codec.h2b id) _ rss rss' h₂ stays λ transaction_id e₃ h₃.
                lift_either
                  (backend.encode_server_signed1 (record {
                    transaction_id = transaction_id;
                    euicc_challenge = challenge;
                    server_address = config.server_hostname;
                    server_challenge = moment.random;
                  }))
                  _ rss rss' h₃ stays
                  λ signed1 e₄ h₄.
                    lift_either (O.expect config.dp_auth.auth_key_id index_error) _ rss rss' h₄
                      stays
                      λ aki e₅ h₅.
                        lift_either (cert_get_subject_key_id ci_cert) _ rss rss' h₅ stays
                          λ ci_cert_id e₆ h₆.
                            let ss₀ = new_session id moment.random ci_cert_id in
                            lift_either (open_session backend config moment challenge ci_cert) _
                              (Store.put id ss₀ rss) rss' h₆
                              (λ same. open_it ss₀ rss' (rw (← same) (get-put id other ss₀ rss)))
                              λ ss e₇ h₇.
                                let now : Store.put id ss (Store.put id ss₀ rss) ≡ rss' = cc in
                                open_it ss rss' (rw (← now) (written_twice id other ss₀ ss rss))
