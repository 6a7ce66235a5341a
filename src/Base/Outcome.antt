-- ===== src/Base/Outcome.antt =====
-- The results of a service call: a value, or one of the errors of error-handler.middleware.
-- An operation on a state answers with the new state beside its value. A thrown error rolls the
-- transaction back, so it carries no state.
use mathlib.Core.Path.{◌≡◌, refl}
use mathlib.Core.Bool.{Bool, true, false}
use mathlib.Core.Option.{Option, none, some}
use native.Mathlib.Omega.{arith}

pub data Error : Type 0 where
  not_found forbidden bad_request : Error
  -- A statement that the database refuses.
  refused : Error

pub data Outcome {ℓ} (A : Type ℓ) : Type ℓ where
  ok : A → Outcome A
  throw : Error → Outcome A

infixl 5 ◌>>=◌ ◌>>◌
abbrev pub ◌>>=◌ {ℓ κ} : {A : Type ℓ} {B : Type κ} → Outcome A → (A → Outcome B) → Outcome B
ok a >>= f = f a
throw e >>= f = throw e

abbrev pub ◌>>◌ {ℓ} : {B : Type ℓ} → Outcome (Unit {0}) → Outcome B → Outcome B
m >> k = m >>= λ _. k

-- `if (!test) throw e`
abbrev pub require : Bool → Error → Outcome (Unit {0})
require true e = ok tt
require false e = throw e

-- `if (!row) throw e`
abbrev pub found {ℓ} : {A : Type ℓ} → Option A → Error → Outcome A
found none e = throw e
found (some a) e = ok a

-- What a successful chain of steps has established.
pub bind-eq-ok {ℓ κ} :
    {A : Type ℓ} {B : Type κ} (m : Outcome A) (f : A → Outcome B) {b : B}
    → (m >>= f) ≡ ok b
    → (a : A) × (m ≡ ok a) × (f a ≡ ok b)
bind-eq-ok (ok a) f h = (a, refl, h)
bind-eq-ok (throw e) f h = cc

pub require-eq-ok : (b : Bool) (e : Error) {u : Unit {0}} → require b e ≡ ok u → b ≡ true
require-eq-ok true e h = refl
require-eq-ok false e h = cc

pub found-eq-ok {ℓ} :
    {A : Type ℓ} (o : Option A) (e : Error) {a : A} → found o e ≡ ok a → o ≡ some a
found-eq-ok none e h = cc
found-eq-ok (some b) e h = ground arith

-- The same, for a proof that goes on with the parts as variables.
pub after-ok {ℓ κ μ} :
    {A : Type ℓ} {B : Type κ} {C : Type μ} (m : Outcome A) (f : A → Outcome B) {b : B}
    → (m >>= f) ≡ ok b
    → ((a : A) → m ≡ ok a → f a ≡ ok b → C)
    → C
after-ok (ok a) f h k = k a refl h
after-ok (throw e) f h k = cc

pub after_require {ℓ μ} :
    {B : Type ℓ} {C : Type μ} (t : Bool) (e : Error) (m : Outcome B) {b : B}
    → (require t e >> m) ≡ ok b
    → (t ≡ true → m ≡ ok b → C)
    → C
after_require true e m h k = k refl h
after_require false e m h k = cc

pub after_found {ℓ κ μ} :
    {A : Type ℓ} {B : Type κ} {C : Type μ} (o : Option A) (e : Error) (f : A → Outcome B) {b : B}
    → (found o e >>= f) ≡ ok b
    → ((a : A) → o ≡ some a → f a ≡ ok b → C)
    → C
after_found (some a) e f h k = k a refl h
after_found none e f h k = cc

pub ok-injective {ℓ} : {A : Type ℓ} (a b : A) → ok a ≡ ok b → a ≡ b
ok-injective a b h = cc
