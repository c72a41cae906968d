-- ===== src/Common/Outcome.antt =====
-- Python's exceptions as values. `api_error` is `ApiError(subject_code, reason_code, ...)` of
-- osmo-smdpp.py by its two codes.
use Prim.Native.String.{String}
use mathlib.Core.Path.{◌≡◌, refl}
use mathlib.Core.Bool.{Bool, true, false}
use mathlib.Core.Option.{Option, none, some}

pub data Raised : Type 0 where
  value_error assertion_error overflow_error type_error index_error key_error : Raised
  attribute_error os_error verify_error invalid_signature : Raised
  extension_not_found generic_error : Raised
  api_error : String → String → Raised

pub data Outcome {ℓ} (A : Type ℓ) : Type ℓ where
  ok : A → Outcome A
  err : Raised → Outcome A

-- `if not b: raise e`
abbrev pub guard : Bool → Raised → Outcome (Unit {0})
guard false raised = err raised
guard true raised = ok tt

infixl 5 ◌>>=◌ ◌>>◌
abbrev pub ◌>>=◌ {ℓ κ} : {A : Type ℓ} {B : Type κ} → Outcome A → (A → Outcome B) → Outcome B
◌>>=◌ (err raised) next = err raised
◌>>=◌ (ok a) next = next a

abbrev pub ◌>>◌ {ℓ} : {B : Type ℓ} → Outcome (Unit {0}) → Outcome B → Outcome B
check >> next = check >>= λ done. next

-- A value that may be missing, where a missing one raises.
abbrev pub expect {ℓ} : {A : Type ℓ} → Option A → Raised → Outcome A
expect none raised = err raised
expect (some a) raised = ok a

-- A bind that returns has returned at both steps: to prove `P` of it, use the two.
pub bind_ok :
    {A B P : Type 0} (m : Outcome A) (f : A → Outcome B) {b : B}
    → (m >>= f) ≡ ok b
    → ((a : A) → m ≡ ok a → f a ≡ ok b → P)
    → P
bind_ok (ok a) f h use_them = use_them a refl h
bind_ok (err e) f h use_them = absurd (cc)

pub guard_ok : (b : Bool) (e : Raised) {u : Unit {0}} → guard b e ≡ ok u → b ≡ true
guard_ok true e h = refl
guard_ok false e h = absurd (cc)

pub expect_ok : {A : Type 0} (o : Option A) (e : Raised) {a : A} → expect o e ≡ ok a → o ≡ some a
expect_ok (some x) e h = cc
expect_ok none e h = absurd (cc)

pub bind_guard :
    {B P : Type 0} (b : Bool) (e : Raised) (f : Unit {0} → Outcome B) {x : B}
    → (guard b e >>= f) ≡ ok x
    → (b ≡ true → f tt ≡ ok x → P)
    → P
bind_guard true e f h use_them = use_them refl h
bind_guard false e f h use_them = absurd (cc)

pub bind_expect :
    {A B P : Type 0} (o : Option A) (e : Raised) (f : A → Outcome B) {x : B}
    → (expect o e >>= f) ≡ ok x
    → ((a : A) → o ≡ some a → f a ≡ ok x → P)
    → P
bind_expect (some a) e f h use_them = use_them a refl h
bind_expect none e f h use_them = absurd (cc)
