-- ===== src/Common/Action.antt =====
-- Methods that change an object and may raise: what was written before a raise stays written, so
-- the state comes back beside the exception too.
use mathlib.Core.Path.{◌≡◌, refl, ap}
use mathlib.Core.Bool.{Bool}
use mathlib.Core.List.{List, [], ◌∷◌}
use zk_e_sim_smdp.Common.Outcome.{Outcome, ok, err, Raised, guard as require, expect as demand}
use zk_e_sim_smdp.Common.Lists.{All, length}
use Prim.Native.Nat.{ℕ, suc}
use mathlib.Core.Option.{Option}

abbrev pub Action {ℓ} : Type ℓ → Type ℓ → Type ℓ
Action S A = S → Outcome A × S

module _ {ℓ} {S A : Type ℓ} where
  abbrev pub pure : A → Action S A
  pure a s = (ok a, s)

  abbrev pub raise : Raised → Action S A
  raise e s = (err e, s)

  -- a computation that does not touch the object
  abbrev pub lift : Outcome A → Action S A
  lift r s = (r, s)

  abbrev pub gets : (S → A) → Action S A
  gets f s = (ok (f s), s)

abbrev pub modify : {S : Type 0} → (S → S) → Action S (Unit {0})
modify f s = (ok tt, f s)

module _ {ℓ} {S A B : Type ℓ} where
  abbrev pub continue : Outcome A → (A → Action S B) → Action S B
  continue (ok a) f s = f a s
  continue (err e) f s = (err e, s)

  infixl 5 ◌>>=◌
  abbrev pub ◌>>=◌ : Action S A → (A → Action S B) → Action S B
  ◌>>=◌ m f s = let (r, s') = m s in continue r f s'

infixl 5 ◌>>◌
abbrev pub ◌>>◌ : {S B : Type 0} → Action S (Unit {0}) → Action S B → Action S B
m >> k = m >>= λ _. k

-- `if not b: raise e`
abbrev pub guard : {S : Type 0} → Bool → Raised → Action S (Unit {0})
guard b e = lift (require b e)

abbrev pub expect : {S A : Type 0} → Option A → Raised → Action S A
expect o e = lift (demand o e)

-- `[f(x) for x in xs]`, where each call may change the object
unfoldable pub for_each : {S A B : Type 0} → (A → Action S B) → List A → Action S (List B)
for_each f [] = pure []
for_each f (x ∷ xs) = do y ← f x; ys ← for_each f xs; pure (y ∷ ys)

-- A bind that returns has returned at each of its two steps: to prove `P` of it, use the two.
pub bind_returned :
    {S A B P : Type 0} (m : Action S A) (f : A → Action S B) (s t : S) {b : B}
    → (m >>= f) s ≡ (ok b, t)
    → ((a : A) (s' : S) → m s ≡ (ok a, s') → f a s' ≡ (ok b, t) → P)
    → P
bind_returned {S} {A} {B} {P} m f s t {b} h use_them = go (m s) refl h
  where
    go : (r : Outcome A × S) → m s ≡ r → continue r.0 f r.1 ≡ (ok b, t) → P
    go (ok a, s') e k = use_them a s' e k
    go (err x, s') e k = absurd (cc (ap (λ (p : Outcome B × S). p.0) k))

-- Where `g` undoes `f` from every state, step by step, the loop over `g` undoes the loop over `f`.
pub for_each_inverse :
    {S A B : Type 0} (P : A → Type 0) (f : A → Action S B) (g : B → Action S A)
    → ((x : A) (y : B) (s s' : S) → P x → f x s ≡ (ok y, s') → g y s ≡ (ok x, s'))
    → (xs : List A) (ys : List B) (s s' : S) → All P xs
    → for_each f xs s ≡ (ok ys, s')
    → for_each g ys s ≡ (ok xs, s')
unfolding for_each
for_each_inverse P f g undo [] [] s s' h e = cc
for_each_inverse P f g undo [] (y ∷ ys) s s' h e = absurd (cc)
for_each_inverse P f g undo (x ∷ xs) ys s s' (hx, hxs) e = bind_returned (f x) _ s s' e λ y t e₁ k.
    bind_returned (for_each f xs) _ t s' k λ zs u e₂ l.
      let same : y ∷ zs ≡ ys = cc in
      let end : u ≡ s' = cc in
      let rest = for_each_inverse P f g undo xs zs t u hxs e₂ in
      rw (← same, undo x y s t hx e₁) (rw rest (rw end))

-- A loop that returns: what each round gives of what it is given, and an invariant of the state.
pub for_each_each :
    {S A B : Type 0} (P : A → Type 0) (Q : B → Type 0) (I : S → Type 0) (f : A → Action S B)
    → ((x : A) (y : B) (s s' : S) → P x → I s → f x s ≡ (ok y, s') → Q y × I s')
    → (xs : List A) (ys : List B) (s s' : S) → All P xs
    → I s
    → for_each f xs s ≡ (ok ys, s')
    → All Q ys × I s'
unfolding for_each
for_each_each P Q I f round [] [] s s' h i e = let same : s ≡ s' = cc in rw (← same) (tt, i)
for_each_each P Q I f round [] (y ∷ ys) s s' h i e = absurd (cc)
for_each_each P Q I f round (x ∷ xs) ys s s' (hx, hxs) i e =
    bind_returned (f x) _ s s' e λ y t e₁ k.
      let (q, j) = round x y s t hx i e₁ in
      bind_returned (for_each f xs) _ t s' k λ zs u e₂ l.
        let same : y ∷ zs ≡ ys = cc in
        let end : u ≡ s' = cc in
        let (qs, last) = for_each_each P Q I f round xs zs t u hxs j e₂ in
        rw (← same) (rw (← end) ((q, qs), last))

-- A loop whose rounds all return, as long as an invariant over the rounds left holds, returns.
pub for_each_total :
    {S A B : Type 0} (P : A → Type 0) (I : ℕ → S → Type 0) (f : A → Action S B)
    → ((x : A) (n : ℕ) (s : S)
        → P x
        → I (suc n) s
        → (y : B) × (s' : S) × (f x s ≡ (ok y, s')) × I n s')
    → (xs : List A) (s : S) → All P xs
    → I (length xs) s
    → (ys : List B) × (s' : S) × (for_each f xs s ≡ (ok ys, s')) × I 0 s'
unfolding for_each
for_each_total P I f round [] s h i = ([], s, refl, i)
for_each_total P I f round (x ∷ xs) s (hx, hxs) i =
    let (y, t, e, j) = round x (length xs) s hx i in
    let (ys, u, k, l) = for_each_total P I f round xs t hxs j in (y ∷ ys, u, rw e (rw k), l)

-- A bind behind a step that only computes: an exception is that of the step, with the object as it
-- was, or comes from behind it.
pub lift_raised :
    {S A B P : Type 0} (r : Outcome A) (f : A → Action S B) (s t : S) {e : Raised}
    → (lift r >>= f) s ≡ (err e, t)
    → (r ≡ err e → s ≡ t → P)
    → ((a : A) → r ≡ ok a → f a s ≡ (err e, t) → P)
    → P
lift_raised (ok a) f s t h at_once later = later a refl h
lift_raised (err x) f s t h at_once later = at_once (cc) (cc)

pub lift_returned :
    {S A B P : Type 0} (r : Outcome A) (f : A → Action S B) (s t : S) {b : B}
    → (lift r >>= f) s ≡ (ok b, t)
    → ((a : A) → r ≡ ok a → f a s ≡ (ok b, t) → P)
    → P
lift_returned (ok a) f s t h use_them = use_them a refl h
lift_returned (err x) f s t h use_them = absurd (cc)

pub lift_either :
    {S A B P : Type 0} (r : Outcome A) (f : A → Action S B) (s t : S) {o : Outcome B}
    → (lift r >>= f) s ≡ (o, t)
    → (s ≡ t → P)
    → ((a : A) → r ≡ ok a → f a s ≡ (o, t) → P)
    → P
lift_either (ok a) f s t h at_once later = later a refl h
lift_either (err x) f s t h at_once later = at_once (cc)
