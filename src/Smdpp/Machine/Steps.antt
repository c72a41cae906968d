-- ===== src/Smdpp/Machine/Steps.antt =====
-- Requests to osmo-smdpp.py as steps of the session store, and histories of requests.
use zk_e_sim_smdp.Common.{List, [], ◌∷◌, refl}
use zk_e_sim_smdp.Common.Hex.{Text}
use zk_e_sim_smdp.Session.Store.{SessionStore}
use zk_e_sim_smdp.Smdpp.{Backend, Config, Moment, Content}
use zk_e_sim_smdp.Smdpp.Initiate.{initiate_authentication}
use zk_e_sim_smdp.Smdpp.Authenticate.{authenticate_client}
use zk_e_sim_smdp.Smdpp.Download.{get_bound_profile_package}
use zk_e_sim_smdp.Smdpp.Finish.{cancel_session, handle_notification}
use zk_e_sim_smdp.Smdpp.Machine.{Event, initiate, authenticate, download, cancel, notify, Change}
use zk_e_sim_smdp.Smdpp.Machine.Effects.{
  view, initiate_authentication-Change, authenticate_client-Change,
  get_bound_profile_package-Change, cancel_session-Change, handle_notification-Change,
}

module _ (backend : Backend) (config : Config) where
  -- A request to the server, whatever comes of it.
  pub data Step : Event → SessionStore → SessionStore → Type 0 where
    initiating :
        (moment : Moment) (content : Content) (rss : SessionStore)
        → Step initiate rss (initiate_authentication backend config moment content rss).1
    authenticating :
        (moment : Moment) (content : Content) (rss : SessionStore)
        → Step authenticate rss (authenticate_client backend config moment content rss).1
    downloading :
        (moment : Moment) (content : Content) (rss : SessionStore)
        → Step download rss (get_bound_profile_package backend config moment content rss).1
    cancelling :
        (content : Content) (rss : SessionStore)
        → Step cancel rss (cancel_session backend config content rss).1
    notifying :
        (content : Content) (rss : SessionStore)
        → Step notify rss (handle_notification backend config content rss).1

  -- Requests one after the other.
  pub data Trace : List Event → SessionStore → SessionStore → Type 0 where
    finished : (rss : SessionStore) → Trace [] rss rss
    followed :
        (e : Event) (es : List Event) (rss rss₁ rss₂ : SessionStore)
        → Step e rss rss₁
        → Trace es rss₁ rss₂
        → Trace (e ∷ es) rss rss₂

  -- Whatever a request to the server is, and whether it is answered or refused, what it does to each
  -- session of the store is a change of the machine: one that this request may make.
  pub Step-Change :
      (e : Event) (rss rss' : SessionStore)
      → Step e rss rss'
      → (id : Text) → Change e id (view id rss) (view id rss')
  Step-Change _ _ _ (initiating moment content rss) id =
      initiate_authentication-Change backend config moment content rss _ _ id refl
  Step-Change _ _ _ (authenticating moment content rss) id =
      authenticate_client-Change backend config moment content rss _ _ id refl
  Step-Change _ _ _ (downloading moment content rss) id =
      get_bound_profile_package-Change backend config moment content rss _ _ id refl
  Step-Change _ _ _ (cancelling content rss) id =
      cancel_session-Change backend config content rss _ _ id refl
  Step-Change _ _ _ (notifying content rss) id =
      handle_notification-Change backend config content rss _ _ id refl
