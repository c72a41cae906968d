-- ===== src/Smdpp/Machine/Laws.antt =====
-- The laws of the machine of a session: the order of the requests, and what holds of a session after
-- any of them.
use zk_e_sim_smdp.Common.{Option, none, some, [], ◌∷◌, ◌≡◌, ◌⊎◌, refl, inl, inr}
use mathlib.Core.Option.{IsSome}
use zk_e_sim_smdp.Common.Bytes.{Bytes}
use zk_e_sim_smdp.Common.Hex.{Text}
use zk_e_sim_smdp.Smdpp.Machine.{
  Event, initiate, authenticate, download, Progress, fresh, answer_with, bind_with, Change,
  unchanged, opened, answered, bound_to, cancelled, installed, phase_by, phase, remaining, absent,
  bound, Ends, AllWhole,
}

-- A session needs no more requests than one that is not there.
remaining_least :
    (secret signature2 : Option Bytes)
    → Ends (remaining (phase_by secret signature2)) (remaining absent)
unfolding remaining phase_by Ends
remaining_least (some secret) signature2 = (initiate ∷ authenticate ∷ download ∷ [], refl)
remaining_least none (some signature2) = (initiate ∷ authenticate ∷ [], refl)
remaining_least none none = (initiate ∷ [], refl)

answered-remaining :
    (secret before : Option Bytes) (signature2 : Bytes)
    → (remaining (phase_by secret before)
        ≡ authenticate ∷ remaining (phase_by secret (some signature2)))
      ⊎ Ends (remaining (phase_by secret before)) (remaining (phase_by secret (some signature2)))
unfolding remaining phase_by Ends
answered-remaining (some secret) before signature2 = inr ([], refl)
answered-remaining none (some before) signature2 = inr ([], refl)
answered-remaining none none signature2 = inl refl

bound-remaining :
    (secret before : Option Bytes) (signature2 : Bytes)
    → before ≡ some signature2
    → (remaining (phase_by secret before) ≡ download ∷ remaining bound)
      ⊎ Ends (remaining (phase_by secret before)) (remaining bound)
unfolding remaining phase_by Ends
bound-remaining (some secret) before signature2 e = inr ([], refl)
bound-remaining none (some before) signature2 e = inl refl
bound-remaining none none signature2 e = absurd (cc)

-- One request takes off at most the first of the requests that a session needs.
pub Change-remaining :
    (e : Event) (id : Text) (p q : Option Progress)
    → Change e id p q
    → (remaining (phase p) ≡ e ∷ remaining (phase q))
      ⊎ Ends (remaining (phase p)) (remaining (phase q))
unfolding phase phase_by remaining Ends fresh answer_with bind_with
Change-remaining _ _ _ _ (unchanged e id p) = inr ([], refl)
Change-remaining _ _ _ _ (opened id) = inl refl
Change-remaining _ _ _ _ (answered id p eid m metadata signature2) =
    answered-remaining p.shared_secret p.smdp_signature2_do signature2
Change-remaining _ _ _ _ (bound_to id p s m a b c d e f) =
    bound-remaining p.shared_secret p.smdp_signature2_do s e
Change-remaining _ _ _ _ (cancelled id p) =
    inr (remaining_least p.shared_secret p.smdp_signature2_do)
Change-remaining _ _ _ _ (installed id p) =
    inr (remaining_least p.shared_secret p.smdp_signature2_do)

some-IsSome : (o : Option Bytes) (b : Bytes) → o ≡ some b → IsSome o
some-IsSome (some a) b e = tt
some-IsSome none b e = absurd (cc)

-- Every change keeps a session whole.
pub Change-AllWhole :
    (e : Event) (id : Text) (p q : Option Progress)
    → Change e id p q
    → AllWhole id p
    → AllWhole id q
unfolding AllWhole fresh answer_with bind_with
Change-AllWhole _ _ _ _ (unchanged e id p) h = h
Change-AllWhole _ _ _ _ (opened id) h = record {
  named = refl;
  when_answered = λ no. absurd no;
  when_bound = λ no. absurd no;
}
Change-AllWhole _ _ _ _ (answered id p eid m metadata signature2) h = record {
  named = h.named;
  when_answered = λ _. (tt, tt, tt);
  when_bound = λ b. let (_, otpk, smdp, host) = h.when_bound b in (tt, otpk, smdp, host);
}
Change-AllWhole _ _ _ _ (bound_to id p s m a b c d e f) h = record {
  named = h.named;
  when_answered = h.when_answered;
  when_bound = λ _. (some-IsSome p.smdp_signature2_do s e, tt, tt, tt);
}
Change-AllWhole _ _ _ _ (cancelled id p) h = tt
Change-AllWhole _ _ _ _ (installed id p) h = tt
