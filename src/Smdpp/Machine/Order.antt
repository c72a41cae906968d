-- ===== src/Smdpp/Machine/Order.antt =====
-- The order of the requests to osmo-smdpp.py that have made a session what it is.
use zk_e_sim_smdp.Common.{List, [], ◌∷◌, ◌++◌, ◌≡◌, ◌⊎◌, inl, inr, refl}
use zk_e_sim_smdp.Common.Hex.{Text}
use zk_e_sim_smdp.Session.Store
use zk_e_sim_smdp.Session.Store.{SessionStore}
use zk_e_sim_smdp.Smdpp.{Backend, Config}
use zk_e_sim_smdp.Smdpp.Machine.{
  Event, initiate, authenticate, download, bound, phase, remaining, Ends,
}
use zk_e_sim_smdp.Smdpp.Machine.Laws.{Change-remaining}
use zk_e_sim_smdp.Smdpp.Machine.Effects.{seen, view}
use zk_e_sim_smdp.Smdpp.Machine.Moves.{
  Opens, Authenticates, Binds, initiate_authentication-Opens, authenticate_client-Authenticates,
  get_bound_profile_package-Binds,
}
use zk_e_sim_smdp.Smdpp.Machine.Steps.{
  Step, initiating, authenticating, downloading, cancelling, notifying, Trace, finished, followed,
  Step-Change,
}

module _ (backend : Backend) (config : Config) where
  -- The request names the session and passes its checks; of the requests that end sessions nothing is
  -- asked.
  unfoldable pub Serves :
      (id : Text) (e : Event) (rss rss' : SessionStore) → Step backend config e rss rss' → Type 0
  Serves id _ _ _ (initiating moment content rss) = Opens backend config id moment content rss
  Serves id _ _ _ (authenticating moment content rss) =
      Authenticates backend config id moment content rss
  Serves id _ _ _ (downloading moment content rss) = Binds backend config id moment content rss
  Serves id _ _ _ (cancelling content rss) = Unit {0}
  Serves id _ _ _ (notifying content rss) = Unit {0}

  -- A history has, in the given order and perhaps with other requests in between, requests of these
  -- kinds that served the session.
  unfoldable pub Through :
      (id : Text) (ws es : List Event) (rss rss' : SessionStore)
      → Trace backend config es rss rss'
      → Type 0
  Through id [] _ _ _ trace = Unit {0}
  Through id (w ∷ ws) _ _ _ (finished rss) = ⊥
  Through id (w ∷ ws) _ _ _ (followed e es rss rss₁ rss₂ step trace) =
      ((w ≡ e) × Serves id e rss rss₁ step × Through id ws es rss₁ rss₂ trace)
      ⊎ Through id (w ∷ ws) es rss₁ rss₂ trace

  -- A request that changes the progress of a session serves it.
  Step-Serves :
      (id : Text) (e : Event) (rss rss' : SessionStore) (step : Step backend config e rss rss')
      → (view id rss ≡ view id rss') ⊎ Serves id e rss rss' step
  unfolding Serves
  Step-Serves id _ _ _ (initiating moment content rss) =
      initiate_authentication-Opens backend config moment content rss _ _ id refl
  Step-Serves id _ _ _ (authenticating moment content rss) =
      authenticate_client-Authenticates backend config moment content rss _ _ id refl
  Step-Serves id _ _ _ (downloading moment content rss) =
      get_bound_profile_package-Binds backend config moment content rss _ _ id refl
  Step-Serves id _ _ _ (cancelling content rss) = inr tt
  Step-Serves id _ _ _ (notifying content rss) = inr tt

  -- One request in front of a history takes nothing away.
  Through-later :
      (id : Text) (ws : List Event) (e : Event) (es : List Event) (rss rss₁ rss₂ : SessionStore)
      (step : Step backend config e rss rss₁) (trace : Trace backend config es rss₁ rss₂)
      → Through id ws es rss₁ rss₂ trace
      → Through id ws (e ∷ es) rss rss₂ (followed e es rss rss₁ rss₂ step trace)
  unfolding Through
  Through-later id [] e es rss rss₁ rss₂ step trace h = tt
  Through-later id (w ∷ ws) e es rss rss₁ rss₂ step trace h = inr h

  -- A history with more of the kinds has the last ones of them.
  Through-fewer :
      (id : Text) (w : Event) (ws es : List Event) (rss rss' : SessionStore)
      (trace : Trace backend config es rss rss')
      → Through id (w ∷ ws) es rss rss' trace
      → Through id ws es rss rss' trace
  unfolding Through
  Through-fewer id w ws _ _ _ (finished rss) h = absurd h
  Through-fewer id w ws _ _ _ (followed e es rss rss₁ rss₂ step trace) (inl (_, _, h)) =
      Through-later id ws e es rss rss₁ rss₂ step trace h
  Through-fewer id w ws _ _ _ (followed e es rss rss₁ rss₂ step trace) (inr h) =
      Through-later id ws e es rss rss₁ rss₂ step trace (Through-fewer id w ws es rss₁ rss₂ trace h)

  Through-end :
      (id : Text) (us ws es : List Event) (rss rss' : SessionStore)
      (trace : Trace backend config es rss rss')
      → Through id (us ++ ws) es rss rss' trace
      → Through id ws es rss rss' trace
  Through-end id [] ws es rss rss' trace h = h
  Through-end id (u ∷ us) ws es rss rss' trace h =
      Through-end id us ws es rss rss' trace (Through-fewer id u (us ++ ws) es rss rss' trace h)

  -- One request in front of a history that has what the session then needs.
  Through-advance :
      (id : Text) (ws vs : List Event) (e : Event) (es : List Event) (rss rss₁ rss₂ : SessionStore)
      (step : Step backend config e rss rss₁) (trace : Trace backend config es rss₁ rss₂)
      → Serves id e rss rss₁ step
      → (ws ≡ e ∷ vs) ⊎ Ends ws vs
      → Through id vs es rss₁ rss₂ trace
      → Through id ws (e ∷ es) rss rss₂ (followed e es rss rss₁ rss₂ step trace)
  unfolding Ends
  Through-advance id ws vs e es rss rss₁ rss₂ step trace serves (inl first) h =
      rw first (unfold Through in inl (refl, serves, h))
  Through-advance id ws vs e es rss rss₁ rss₂ step trace serves (inr (us, ends)) h =
      Through-later id ws e es rss rss₁ rss₂ step trace
        (Through-end id us ws es rss₁ rss₂ trace (rw ends h))

  Trace-Through :
      (id : Text) (es : List Event) (rss rss' : SessionStore)
      (trace : Trace backend config es rss rss')
      → phase (view id rss') ≡ bound
      → Through id (remaining (phase (view id rss))) es rss rss' trace
  Trace-Through id _ _ _ (finished rss) h = unfold remaining Through in rw h tt
  Trace-Through id _ _ _ (followed e es rss rss₁ rss₂ step trace) h =
      let rest = Trace-Through id es rss₁ rss₂ trace h in
      let needed : List Event = remaining (phase (view id rss)) in
      elim (Step-Serves id e rss rss₁ step) [
        | inl same ↦
            let rest' : Through id needed es rss₁ rss₂ trace = rw same rest in
            Through-later id needed e es rss rss₁ rss₂ step trace rest'
        | inr serves ↦
            Through-advance id needed (remaining (phase (view id rss₁))) e es rss rss₁ rss₂ step
              trace serves
              (Change-remaining e id (view id rss) (view id rss₁)
                (Step-Change backend config e rss rss₁ step id))
              rest
      ]

  -- A session for which keys are agreed, in a server that began with no session, has been through three
  -- requests in this order, each of which named it and passed its checks: one to initiateAutentication
  -- when its identifier was free, one to authenticateClient, and one to getBoundProfilePackage.
  pub Trace-in_order :
      (es : List Event) (rss : SessionStore) (id : Text) (trace : Trace backend config es [] rss)
      → phase (view id rss) ≡ bound
      → Through id (initiate ∷ authenticate ∷ download ∷ []) es [] rss trace
  unfolding phase view seen Store.get remaining
  Trace-in_order es rss id trace h = Trace-Through id es [] rss trace h
