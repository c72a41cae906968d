-- ===== src/Smdpp/Opening/Writes.antt =====
-- What `authenticateClient` of osmo-smdpp.py writes, whether it returns or raises.
use zk_e_sim_smdp.Common.{false, some, ◌≡◌, ◌⊎◌, inl, inr, refl}
use zk_e_sim_smdp.Common.Outcome as O
use zk_e_sim_smdp.Common.Outcome.{
  Outcome, ok, err, api_error, index_error, assertion_error, bind_ok, guard_ok, expect_ok, Raised,
}
use zk_e_sim_smdp.Common.Action.{lift_either}
use zk_e_sim_smdp.Common.Bytes.{beq, beq_refl}
use zk_e_sim_smdp.Common.Hex.{Text}
use zk_e_sim_smdp.Session.{RspSessionState, set_h_cert}
use zk_e_sim_smdp.Session.Store
use zk_e_sim_smdp.Session.Store.{SessionStore, get-put, get-delete, contains-get}
use zk_e_sim_smdp.Smdpp.{Backend, Config, Content, Moment}
use zk_e_sim_smdp.Smdpp.Authenticate.{authenticate_client}
use zk_e_sim_smdp.Smdpp.Authenticate.Checks.{
  ClientRequest, AuthenticateResponse, parse_client, attach, check_client,
}
use zk_e_sim_smdp.Smdpp.Opening.{written_twice}

Outcome-cases : {A : Type 0} (r : Outcome A) → ((a : A) × (r ≡ ok a)) ⊎ ((e : Raised) × (r ≡ err e))
Outcome-cases (ok a) = inl (a, refl)
Outcome-cases (err e) = inr (e, refl)

module _ (backend : Backend) (config : Config) where
  -- What `authenticateClient` has written behind its checks: the session with the certificates of the
  -- request, and after that what the checks return, where they do.
  unfoldable pub Written :
      Moment
      → ClientRequest
      → RspSessionState
      → Outcome AuthenticateResponse
      → SessionStore
      → SessionStore
      → Type 0
  Written moment request ss o rss rss' =
      ((e : Raised) × (check_client backend config moment request (attach backend config request ss)
          ≡ err e)
        × (o ≡ err e)
        × (rss' ≡ Store.put request.transaction_id (attach backend config request ss) rss))
      ⊎ ((ss' : RspSessionState) × (response : AuthenticateResponse) × (check_client backend config
              moment request (attach backend config request ss)
            ≡ ok (ss', response))
          × (o ≡ ok response)
          × (rss'
              ≡ Store.put request.transaction_id ss'
                  (Store.put request.transaction_id (attach backend config request ss) rss)))

  -- The states of the store that `authenticateClient` can leave: as it was, or with one or two writes
  -- to the session that the request names.
  pub authenticate_client_writes :
      (moment : Moment) (content : Content) (rss rss' : SessionStore)
      (o : Outcome AuthenticateResponse)
      → authenticate_client backend config moment content rss ≡ (o, rss')
      → (rss ≡ rss')
        ⊎ ((request : ClientRequest) × (ss : RspSessionState) × (parse_client backend config content
              ≡ ok request)
            × (Store.get request.transaction_id rss ≡ some ss)
            × Written moment request ss o rss rss')
  unfolding authenticate_client Written
  authenticate_client_writes moment content rss rss' o h =
      lift_either (parse_client backend config content) _ rss rss' h inl λ request e₁ h₁.
        lift_either (O.expect (Store.get request.transaction_id rss) (api_error "8.10.1" "3.9")) _
          rss rss' h₁ inl
          λ ss e₂ h₂.
            let attached = attach backend config request ss in
            let store₁ = Store.put request.transaction_id attached rss in
            inr (
              request,
              ss,
              e₁,
              expect_ok _ _ e₂,
              elim (Outcome-cases (check_client backend config moment request attached)) [
                | inl ((ss', response), passed) ↦
                    inr (ss', response, passed, cc (rw passed at h₂), cc (rw passed at h₂))
                | inr (e, refused) ↦ inl (e, refused, cc (rw refused at h₂), cc (rw refused at h₂))
              ],
            )

  -- Whatever `authenticateClient` returns or raises, the store is as it was, or the request parses and
  -- only the session that it names can have changed.
  pub authenticate_client_frame :
      (moment : Moment) (content : Content) (rss rss' : SessionStore)
      (o : Outcome AuthenticateResponse)
      → authenticate_client backend config moment content rss ≡ (o, rss')
      → (rss ≡ rss')
        ⊎ ((request : ClientRequest) × (parse_client backend config content ≡ ok request)
            × ((other : Text)
                → beq request.transaction_id other ≡ false
                → Store.get other rss' ≡ Store.get other rss))
  unfolding Written
  authenticate_client_frame moment content rss rss' o h =
      elim (authenticate_client_writes moment content rss rss' o h) [
        | inl same ↦ inl same
        | inr (request, ss, parsed, found, inl (e, refused, raised, same)) ↦ inr (
          request,
          parsed,
          λ other apart.
              rw
                (
                  same,
                  get-put request.transaction_id other (attach backend config request ss) rss,
                  apart,
                )
                refl,
        )
        | inr (request, ss, parsed, found, inr (ss', response, passed, returned, same)) ↦ inr (
          request,
          parsed,
          λ other apart.
              rw
                (
                  same,
                  written_twice request.transaction_id other (attach backend config request ss) ss'
                      rss,
                  apart,
                )
                refl,
        )
      ]

  -- A session that a refused request has left its certificates in, with the hash of the client's; its
  -- other attributes are as before.
  unfoldable pub Replaced : ClientRequest → RspSessionState → RspSessionState → Type 0
  Replaced request ss ss' =
      (ss'.euicc_cert ≡ some request.euicc_cert)
      × (ss'.eum_cert ≡ some request.eum_cert)
      × (ss'.h_cert ≡ some (backend.sha256 request.euicc_certificate_bin))
      × (record ss' { euicc_cert = ss.euicc_cert; eum_cert = ss.eum_cert; h_cert = ss.h_cert } ≡ ss)

  attach-Replaced :
      (request : ClientRequest) (ss : RspSessionState)
      → Replaced request ss (attach backend config request ss)
  unfolding Replaced attach set_h_cert
  attach-Replaced request ss = (refl, refl, refl, refl)

  -- When `authenticateClient` raises, the store is as it was, or the request parses, its session is
  -- known, `check_client` has raised the same exception, and the session in the store then holds the
  -- certificates of the request and the hash of the client's, although they were refused, its other
  -- attributes as before.
  pub authenticate_client_refused :
      (moment : Moment) (content : Content) (rss rss' : SessionStore) (e : Raised)
      → authenticate_client backend config moment content rss ≡ (err e, rss')
      → (rss ≡ rss')
        ⊎ ((request : ClientRequest) × (ss : RspSessionState) × (ss' : RspSessionState)
            × (parse_client backend config content ≡ ok request)
            × (Store.get request.transaction_id rss ≡ some ss)
            × (check_client backend config moment request (attach backend config request ss)
                ≡ err e)
            × (Store.get request.transaction_id rss' ≡ some ss')
            × Replaced request ss ss')
  unfolding Written
  authenticate_client_refused moment content rss rss' e h =
      elim (authenticate_client_writes moment content rss rss' (err e) h) [
        | inl same ↦ inl same
        | inr (request, ss, parsed, found, inl (e', refused, raised, same)) ↦
            let id = request.transaction_id in
            let attached = attach backend config request ss in
            inr (
              request,
              ss,
              attached,
              parsed,
              found,
              cc,
              rw (same, get-put id id attached rss, beq_refl id) refl,
              attach-Replaced request ss,
            )
        | inr (request, ss, parsed, found, inr (ss', response, passed, returned, same)) ↦
            absurd (cc)
      ]
