-- ===== src/Smdpp/Opening.antt =====
-- What `initiateAutentication` and `authenticateClient` of osmo-smdpp.py do to the session store.
pub mod Writes
use zk_e_sim_smdp.Common.{
  Bool, true, false, not, none, some, ◌≡◌, ◌⊎◌, inl, inr, refl, if◌then◌else◌,
}
use zk_e_sim_smdp.Common.Outcome as O
use zk_e_sim_smdp.Common.Outcome.{
  Outcome, ok, err, api_error, index_error, assertion_error, bind_ok, guard_ok, expect_ok, Raised,
}
use zk_e_sim_smdp.Common.Action.{lift_returned, lift_either}
use zk_e_sim_smdp.Common.Bytes.{Bytes, beq, beq_refl}
use zk_e_sim_smdp.Common.Hex.{Text}
use zk_e_sim_smdp.X509.{Certificate, cert_get_subject_key_id}
use zk_e_sim_smdp.Session.{RspSessionState, new_session, set_h_cert}
use zk_e_sim_smdp.Session.Store
use zk_e_sim_smdp.Session.Store.{SessionStore, get-put, get-delete, contains-get}
use zk_e_sim_smdp.Smdpp.{Backend, Config, Content, Moment}
use zk_e_sim_smdp.Smdpp.Initiate.{
  InitiateResponse, check_initiate, open_session, initiate_authentication,
}
use zk_e_sim_smdp.Smdpp.Authenticate.{authenticate_client}
use zk_e_sim_smdp.Smdpp.Authenticate.Checks.{
  ClientRequest, AuthenticateResponse, parse_client, attach, check_client,
}

pub not-true : (b : Bool) → not b ≡ true → b ≡ false
not-true true h = absurd (cc)
not-true false h = refl

-- Two writes to one session: the second stands.
pub written_twice :
    (id other : Text) (ss ss' : RspSessionState) (rss : SessionStore)
    → Store.get other (Store.put id ss' (Store.put id ss rss))
      ≡ (if beq id other then some ss' else Store.get other rss)
written_twice id other ss ss' rss =
    rw (get-put id other ss' (Store.put id ss rss), get-put id other ss rss) (twice (beq id other))
  where
    twice :
        (b : Bool)
        → (if b then some ss' else (if b then some ss else Store.get other rss))
          ≡ (if b then some ss' else Store.get other rss)
    twice true = refl
    twice false = refl

module _ (backend : Backend) (config : Config) where
  -- `authenticateClient` that returns has passed all checks with the session of the request, and that
  -- session is then the one that the checks returned.
  pub authenticate_client_accepted :
      (moment : Moment) (content : Content) (rss rss' : SessionStore)
      (response : AuthenticateResponse)
      → authenticate_client backend config moment content rss ≡ (ok response, rss')
      → (request : ClientRequest) × (ss : RspSessionState) × (ss' : RspSessionState) × (parse_client
            backend config content
          ≡ ok request)
        × (Store.get request.transaction_id rss ≡ some ss)
        × (check_client backend config moment request (attach backend config request ss)
            ≡ ok (ss', response))
        × (Store.get request.transaction_id rss' ≡ some ss')
  unfolding authenticate_client
  authenticate_client_accepted moment content rss rss' response h =
      lift_returned (parse_client backend config content) _ rss rss' h λ request e₁ h₁.
        lift_returned (O.expect (Store.get request.transaction_id rss) (api_error "8.10.1" "3.9")) _
          rss rss' h₁
          λ ss e₂ h₂.
            lift_returned
              (check_client backend config moment request (attach backend config request ss)) _
              (Store.put request.transaction_id (attach backend config request ss) rss) rss' h₂
              λ (ss', r) e₃ h₃.
                let now : rss'
                    ≡ Store.put request.transaction_id ss'
                        (Store.put request.transaction_id (attach backend config request ss) rss) =
                  cc in
                (
                  request,
                  ss,
                  ss',
                  e₁,
                  expect_ok _ _ e₂,
                  cc,
                  rw
                      (
                        now,
                        get-put request.transaction_id request.transaction_id ss' (
                            Store.put request.transaction_id (attach backend config request ss)
                              rss),
                        beq_refl request.transaction_id,
                      )
                      refl,
                )

  pub Opened : Moment → Content → SessionStore → SessionStore → Type 0
  Opened moment content rss rss' =
      (challenge : Bytes) × (ci_cert : Certificate) × (ss : RspSessionState) × (check_initiate
          backend config content
        ≡ ok (challenge, ci_cert))
      × (Store.get moment.uuid rss ≡ none)
      × (open_session backend config moment challenge ci_cert ≡ ok ss)
      × ((other : Text)
          → Store.get other rss' ≡ (if beq moment.uuid other then some ss else Store.get other rss))

  -- When `initiateAutentication` returns, the request has passed its checks, the new identifier was
  -- free, the session under it is the one that was opened for the request, and every other session is
  -- as it was.
  pub initiate_authentication_accepted :
      (moment : Moment) (content : Content) (rss rss' : SessionStore) (response : InitiateResponse)
      → initiate_authentication backend config moment content rss ≡ (ok response, rss')
      → Opened moment content rss rss'
  unfolding Opened initiate_authentication
  initiate_authentication_accepted moment content rss rss' response h =
      lift_returned (check_initiate backend config content) _ rss rss' h
        λ (challenge, ci_cert) e₁ h₁.
          lift_returned (O.guard (not (Store.contains moment.uuid rss)) assertion_error) _ rss rss'
            h₁
            λ _ e₂ h₂.
              lift_returned (backend.codec.h2b moment.uuid) _ rss rss' h₂ λ transaction_id e₃ h₃.
                lift_returned
                  (backend.encode_server_signed1 (record {
                    transaction_id = transaction_id;
                    euicc_challenge = challenge;
                    server_address = config.server_hostname;
                    server_challenge = moment.random;
                  }))
                  _ rss rss' h₃
                  λ signed1 e₄ h₄.
                    lift_returned (O.expect config.dp_auth.auth_key_id index_error) _ rss rss' h₄
                      λ aki e₅ h₅.
                        lift_returned (cert_get_subject_key_id ci_cert) _ rss rss' h₅
                          λ ci_cert_id e₆ h₆.
                            let opened = new_session moment.uuid moment.random ci_cert_id in
                            lift_returned (open_session backend config moment challenge ci_cert) _
                              (Store.put moment.uuid opened rss) rss' h₆
                              λ ss e₇ h₇.
                                let free : Store.contains moment.uuid rss ≡ false =
                                  not-true _ (guard_ok _ _ e₂) in
                                let now : rss'
                                    ≡ Store.put moment.uuid ss (Store.put moment.uuid opened rss) =
                                  cc in
                                (
                                  challenge,
                                  ci_cert,
                                  ss,
                                  e₁,
                                  contains-get moment.uuid rss free,
                                  e₇,
                                  λ other. rw now (written_twice moment.uuid other opened ss rss),
                                )
