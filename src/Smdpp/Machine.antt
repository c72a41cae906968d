-- ===== src/Smdpp/Machine.antt =====
-- The life of a session of osmo-smdpp.py as a machine of its own: what a session has got to, which
-- requests there are, and how each may change one session. The handlers are related to it below.
pub mod Keeps
pub mod Effects
pub mod Moves
pub mod Histories
pub mod Laws
pub mod Steps
pub mod Order
mod Runs
use zk_e_sim_smdp.Common.{Option, none, some, List, [], ◌∷◌, ◌++◌, ◌≡◌}
use mathlib.Core.Option.{IsSome}
use zk_e_sim_smdp.Common.Bytes.{Bytes}
use zk_e_sim_smdp.Common.Hex.{Text}
use zk_e_sim_smdp.Session.{ProfileMetadata}

-- The five requests that the server answers.
pub data Event : Type 0 where
  initiate authenticate download cancel notify : Event

-- What a session has got to: its attributes without the certificates, the challenges and the values
-- of the ZK extension.
pub record Progress : Type 0 where
  pub transaction_id : Text
  pub eid : Option Text
  pub matching_id : Option Text
  pub profile_metadata : Option ProfileMetadata
  pub smdp_signature2_do : Option Bytes
  pub euicc_otpk : Option Bytes
  pub smdp_otpk : Option Bytes
  pub host_id : Option Bytes
  pub shared_secret : Option Bytes

-- A session that was just opened.
unfoldable pub fresh : Text → Progress
fresh id = record {
  transaction_id = id;
  eid = none;
  matching_id = none;
  profile_metadata = none;
  smdp_signature2_do = none;
  euicc_otpk = none;
  smdp_otpk = none;
  host_id = none;
  shared_secret = none;
}

-- What a client that has authenticated itself adds.
unfoldable pub answer_with : Text → Text → ProfileMetadata → Bytes → Progress → Progress
answer_with eid matching_id metadata signature2 p = record p {
  eid = some eid;
  matching_id = some matching_id;
  profile_metadata = some metadata;
  smdp_signature2_do = some signature2;
}

-- What the agreement of keys adds.
unfoldable pub bind_with : Bytes → Bytes → Bytes → Bytes → Progress → Progress
bind_with euicc_otpk smdp_otpk host_id secret p = record p {
  euicc_otpk = some euicc_otpk;
  smdp_otpk = some smdp_otpk;
  host_id = some host_id;
  shared_secret = some secret;
}

-- What a request may do to the session of an identifier.
pub data Change : Event → Text → Option Progress → Option Progress → Type 0 where
  unchanged : (e : Event) (id : Text) (p : Option Progress) → Change e id p p
  opened : (id : Text) → Change initiate id none (some (fresh id))
  answered :
      (id : Text) (p : Progress) (eid matching_id : Text) (metadata : ProfileMetadata)
      (signature2 : Bytes)
      → Change authenticate id (some p) (some (answer_with eid matching_id metadata signature2 p))
  bound_to :
      (id : Text) (p : Progress)
      (signature2 matching_id euicc_otpk smdp_otpk host_id secret : Bytes)
      → p.smdp_signature2_do ≡ some signature2
      → p.matching_id ≡ some matching_id
      → Change download id (some p) (some (bind_with euicc_otpk smdp_otpk host_id secret p))
  cancelled : (id : Text) (p : Progress) → Change cancel id (some p) none
  installed : (id : Text) (p : Progress) → Change notify id (some p) none

-- A session is opened, then its client is authenticated, then its profile is bound.
pub data Phase : Type 0 where
  absent open_ authenticated bound : Phase

phase_by : Option Bytes → Option Bytes → Phase
phase_by (some secret) signature2 = bound
phase_by none (some signature2) = authenticated
phase_by none none = open_

unfoldable pub phase : Option Progress → Phase
unfolding phase_by
phase none = absent
phase (some p) = phase_by p.shared_secret p.smdp_signature2_do

-- The requests that a session still needs.
unfoldable pub remaining : Phase → List Event
remaining absent = initiate ∷ authenticate ∷ download ∷ []
remaining open_ = authenticate ∷ download ∷ []
remaining authenticated = download ∷ []
remaining bound = []

-- The first list is the end of the second one.
unfoldable pub Ends : List Event → List Event → Type 0
Ends ws vs = (us : List Event) × (us ++ ws ≡ vs)

-- What the attributes of a session owe to each other.
pub record Whole (id : Text) (p : Progress) : Type 0 where
  pub named : p.transaction_id ≡ id
  pub when_answered :
      IsSome p.smdp_signature2_do → IsSome p.eid × IsSome p.matching_id × IsSome p.profile_metadata
  pub when_bound :
      IsSome p.shared_secret
      → IsSome p.smdp_signature2_do × IsSome p.euicc_otpk × IsSome p.smdp_otpk × IsSome p.host_id

-- Every session that is there is whole.
unfoldable pub AllWhole : Text → Option Progress → Type 0
AllWhole id none = Unit {0}
AllWhole id (some p) = Whole id p
