-- ===== src/Smdpp/Machine/Histories.antt =====
-- What the handlers of osmo-smdpp.py guarantee over whole histories of requests, from the empty store.
use zk_e_sim_smdp.Common.{some, List, [], ◌≡◌}
use zk_e_sim_smdp.Common.Hex.{Text}
use zk_e_sim_smdp.Session.{RspSessionState}
use zk_e_sim_smdp.Session.Store
use zk_e_sim_smdp.Session.Store.{SessionStore}
use zk_e_sim_smdp.Smdpp.{Backend, Config}
use zk_e_sim_smdp.Smdpp.Machine.{Event, Whole, AllWhole}
use zk_e_sim_smdp.Smdpp.Machine.Laws.{Change-AllWhole}
use zk_e_sim_smdp.Smdpp.Machine.Keeps.{progress}
use zk_e_sim_smdp.Smdpp.Machine.Effects.{seen, view}
use zk_e_sim_smdp.Smdpp.Machine.Steps.{Trace, finished, followed, Step-Change}

module _ (backend : Backend) (config : Config) where
  Trace-AllWhole :
      (es : List Event) (rss rss' : SessionStore) (id : Text)
      → Trace backend config es rss rss'
      → AllWhole id (view id rss)
      → AllWhole id (view id rss')
  Trace-AllWhole _ _ _ id (finished rss) h = h
  Trace-AllWhole _ _ _ id (followed e es rss rss₁ rss₂ step trace) h =
      Trace-AllWhole es rss₁ rss₂ id trace (
        Change-AllWhole e id (view id rss) (view id rss₁)
          (Step-Change backend config e rss rss₁ step id) h)

  -- After any requests to a server that began with no session, every session stands under its own
  -- identifier; one that holds the server's second signature has a client, a profile's name and
  -- metadata; and one that holds a secret has that signature and the keys of both sides.
  pub Trace-Whole :
      (es : List Event) (rss : SessionStore) (id : Text) (ss : RspSessionState)
      → Trace backend config es [] rss
      → Store.get id rss ≡ some ss
      → Whole id (progress ss)
  unfolding AllWhole view seen Store.get
  Trace-Whole es rss id ss trace found =
      let whole : AllWhole id (view id rss) = Trace-AllWhole es [] rss id trace tt in
      let there : view id rss ≡ some (progress ss) = rw found in rw there at whole
