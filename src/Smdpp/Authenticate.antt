-- ===== src/Smdpp/Authenticate.antt =====
-- The handler `authenticateClient` of osmo-smdpp.py: the parts before and after its first write of
-- the session, and the handler.
pub mod Checks
use zk_e_sim_smdp.Common.{Option, none, some, List, [], ◌∷◌}
use zk_e_sim_smdp.Common.Outcome.{Outcome, ok, err, api_error}
use zk_e_sim_smdp.Common.Action.{Action, pure, lift, gets, modify, guard, expect, ◌>>=◌, ◌>>◌}
use zk_e_sim_smdp.Common.Bytes.{Bytes}
use zk_e_sim_smdp.Common.Hex.{Text}
use zk_e_sim_smdp.Session.{RspSessionState}
use zk_e_sim_smdp.Session.Store
use zk_e_sim_smdp.Session.Store.{SessionStore}
use zk_e_sim_smdp.Smdpp.{Backend, Config, Moment, Content}
use Checks.{ClientRequest, AuthenticateResponse, parse_client, attach, check_client}

module _ (backend : Backend) (config : Config) where
  -- `authenticateClient`: the certificates of the request are written into the session before
  -- anything of the request is verified.
  unfoldable pub authenticate_client : Moment → Content → Action SessionStore AuthenticateResponse
  authenticate_client moment content = do
    request ← lift (parse_client backend config content)
    rss ← gets (λ rss. rss)
    ss ← expect (Store.get request.transaction_id rss) (api_error "8.10.1" "3.9")
    modify (Store.put request.transaction_id (attach backend config request ss))
    (ss', response) ←
        lift (check_client backend config moment request (attach backend config request ss))
    modify (Store.put request.transaction_id ss')
    pure response
