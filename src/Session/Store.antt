-- ===== src/Session/Store.antt =====
-- The shelf behind `RspSessionStore`, as the list of its items.
use zk_e_sim_smdp.Common.{
  Bool, false, Option, none, some, List, [], ◌∷◌, ◌≡◌, refl, ◌||◌, if◌then◌else◌, arith,
}
use zk_e_sim_smdp.Common.Bytes.{beq, beq_iff}
use zk_e_sim_smdp.Common.Hex.{Text}
use zk_e_sim_smdp.Session.{RspSessionState}

abbrev pub SessionStore : Type 0
SessionStore = List (Text × RspSessionState)

-- `get(key, None)`
unfoldable pub get : Text → SessionStore → Option RspSessionState
get key [] = none
get key ((k, ss) ∷ rss) = if beq k key then some ss else get key rss

-- `__setitem__`
unfoldable pub put : Text → RspSessionState → SessionStore → SessionStore
put key ss [] = (key, ss) ∷ []
put key ss ((k, old) ∷ rss) = if beq k key then (k, ss) ∷ rss else (k, old) ∷ put key ss rss

-- `__delitem__`, of a key that is there
unfoldable pub delete : Text → SessionStore → SessionStore
delete key [] = []
delete key ((k, ss) ∷ rss) = let rest = delete key rss in if beq k key then rest else (k, ss) ∷ rest

-- `__contains__`
unfoldable pub contains : Text → SessionStore → Bool
contains key [] = false
contains key ((k, ss) ∷ rss) = beq k key || contains key rss

-- After a write the store answers with the new session under its key and as before under every other
-- key.
pub get-put :
    (key other : Text) (ss : RspSessionState) (rss : SessionStore)
    → get other (put key ss rss) ≡ (if beq key other then some ss else get other rss)
unfolding get put
get-put key other ss [] = refl
get-put key other ss ((k, old) ∷ rss) =
    ground (arith, beq_iff k key, beq_iff k other, beq_iff key other, get-put key other ss rss)

-- After a removal the store has no session under the key and answers as before under every other key.
pub get-delete :
    (key other : Text) (rss : SessionStore)
    → get other (delete key rss) ≡ (if beq key other then none else get other rss)
unfolding get delete
get-delete key other [] = ground arith
get-delete key other ((k, ss) ∷ rss) =
    ground (arith, beq_iff k key, beq_iff k other, beq_iff key other, get-delete key other rss)

pub contains-get : (key : Text) (rss : SessionStore) → contains key rss ≡ false → get key rss ≡ none
unfolding contains get
contains-get key [] h = refl
contains-get key ((k, ss) ∷ rss) h = ground (arith, contains-get key rss)
