-- ===== src/Smdpp/Http/Replies.antt =====
-- What the replies of osmo-smdpp.py say of its handlers.
use zk_e_sim_smdp.Common.{String, Option, none, some, ◌≡◌, ◌↔◌, refl, ap}
use zk_e_sim_smdp.Common.Outcome.{Outcome, ok, err, api_error, Raised}
use zk_e_sim_smdp.Common.Action as Action
use zk_e_sim_smdp.Common.Action.{bind_returned, lift_returned}
use zk_e_sim_smdp.Common.Bytes.{Bytes}
use zk_e_sim_smdp.Session.Store.{SessionStore}
use zk_e_sim_smdp.Smdpp.{Content}
use zk_e_sim_smdp.Smdpp.Http.{
  Request, validate_request_headers, ResponseHeader, build_resp_header, Reply, executed,
  encode_error, handle_apierror, reply_with, rsp_api_wrapper, serve,
}

-- No exception becomes an output.
never_executed :
    {A P : Type 0} (e : Raised) (header : ResponseHeader) (a : A)
    → handle_apierror {A = A} (err e) ≡ ok (executed header a)
    → P
unfolding handle_apierror encode_error
never_executed (api_error s r) header a h = absurd (cc)
never_executed e header a h = absurd (cc)

replied :
    {A : Type 0} (output : Option A) (header : ResponseHeader) (a : A)
    → ok (reply_with output) ≡ ok (executed header a)
    → (output ≡ some a) × (header ≡ build_resp_header "Executed-Success" none)
unfolding reply_with
replied none header a h = absurd (cc)
replied (some b) header a h = (cc, cc)

-- An output behind the handler of API errors was there before it.
handled :
    {A : Type 0} (r : Outcome (Reply A) × SessionStore) (rss' : SessionStore)
    (header : ResponseHeader) (a : A)
    → handle_apierror r.0 ≡ ok (executed header a)
    → r.1 ≡ rss'
    → r ≡ (ok (executed header a), rss')
handled (ok reply, t) rss' header a h k =
    let is : ok reply ≡ ok (executed header a) = unfold handle_apierror in h in rw (is, k) refl
handled (err e, t) rss' header a h k = never_executed e header a h

module _ (json_loads : Bytes → Outcome Content) where
  -- What stands behind an output: headers that pass, a body that parses, and a handler that returned.
  unfoldable pub Answered :
      {A : Type 0}
      → (Content → Action.Action SessionStore (Option A))
      → Request
      → A
      → SessionStore
      → SessionStore
      → Type 0
  Answered func request a rss rss' =
      (content : Content) × (validate_request_headers request ≡ ok tt)
      × (json_loads request.body ≡ ok content)
      × (func content rss ≡ (ok (some a), rss'))

  module _ {A : Type 0} (func : Content → Action.Action SessionStore (Option A)) where
    wrapper_executed :
        (request : Request) (rss rss' : SessionStore) (header : ResponseHeader) (a : A)
        → rsp_api_wrapper json_loads func request rss ≡ (ok (executed header a), rss')
        → Answered func request a rss rss' × (header ≡ build_resp_header "Executed-Success" none)
    unfolding rsp_api_wrapper Answered
    wrapper_executed request rss rss' header a h =
        lift_returned (validate_request_headers request) _ rss rss' h λ u e₁ h₁.
          lift_returned (json_loads request.body) _ rss rss' h₁ λ content e₂ h₂.
            bind_returned (func content) _ rss rss' h₂ λ output t e₃ h₃.
              let done : t ≡ rss' = ap (λ (p : Outcome (Reply A) × SessionStore). p.1) h₃ in
              let (is, head) =
                replied output header a (ap (λ (p : Outcome (Reply A) × SessionStore). p.0) h₃) in
              ((content, e₁, e₂, rw (e₃, is, done) refl), head)

    -- A client gets an output exactly when the headers of its request pass, its body parses, and the
    -- handler has returned that output; the header in front then says "Executed-Success", and the
    -- store is what the handler has left.
    pub serve_executed_iff :
        (request : Request) (rss rss' : SessionStore) (header : ResponseHeader) (a : A)
        → (serve json_loads func request rss ≡ (ok (executed header a), rss')) ↔ (
            Answered func request a rss rss' × (header ≡ build_resp_header "Executed-Success" none))
    unfolding serve Answered
    serve_executed_iff request rss rss' header a = (
      λ h. wrapper_executed request rss rss' header a (
          handled (rsp_api_wrapper json_loads func request rss) rss' header a
            (ap (λ (p : Outcome (Reply A) × SessionStore). p.0) h)
            (ap (λ (p : Outcome (Reply A) × SessionStore). p.1) h)),
      λ ((content, valid, parsed, returned), is).
          unfold rsp_api_wrapper reply_with handle_apierror in
          rw (valid, parsed, returned, is) refl,
    )

    -- A request whose headers do not pass leaves the store as it was, and gets the header of an error.
    pub serve_refused :
        (request : Request) (rss : SessionStore) (subject reason : String)
        → validate_request_headers request ≡ err (api_error subject reason)
        → serve json_loads func request rss ≡ (ok (encode_error subject reason), rss)
    unfolding serve rsp_api_wrapper handle_apierror
    serve_refused request rss subject reason h = rw h refl
