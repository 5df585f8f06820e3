-- ===== src/Prelude/Outcome.antt =====
-- What a call of the stateful code comes to: a value, or the fault that stops it.
use mathlib.Core.Option.{Option, none, some}

-- `dangling`: an object is used through a pointer that points to none. `over_read`: a read past the
-- end of the event buffer. `bad_index`: an access outside an array or a repeated field.
-- `out_of_fuel`: the loop has not ended within the rounds given.
pub data Fault : Type 0 where
  dangling over_read bad_index out_of_fuel : Fault

pub data Result {ℓ} (A : Type ℓ) : Type ℓ where
  ok : A → Result A
  err : Fault → Result A

infixl 5 ◌>>=◌
abbrev pub ◌>>=◌ {ℓ κ} : {A : Type ℓ} {B : Type κ} → Result A → (A → Result B) → Result B
ok a >>= f = f a
err e >>= f = err e

abbrev pub or_fault {ℓ} : {A : Type ℓ} → Fault → Option A → Result A
or_fault e none = err e
or_fault e (some a) = ok a

-- A property of the value returned, if there is one.
abbrev pub Returns {ℓ} : {A : Type ℓ} → (A → Type 0) → Result A → Type 0
Returns P (ok a) = P a
Returns P (err e) = Unit {0}

-- The call returns a value with the property.
abbrev pub Gives {ℓ} : {A : Type ℓ} → (A → Type 0) → Result A → Type 0
Gives P (ok a) = P a
Gives P (err e) = ⊥

-- The rule of composition.
pub Gives-bind {ℓ κ} :
    {A : Type ℓ} {B : Type κ} (P : A → Type 0) (Q : B → Type 0) (m : Result A) (f : A → Result B)
    → Gives P m
    → ((a : A) → P a → Gives Q (f a))
    → Gives Q (m >>= f)
Gives-bind P Q (ok a) f h k = k a h
Gives-bind P Q (err e) f h k = elim h [ ]

-- The same of a value that is returned.
pub Returns-bind :
    {A B : Type 0} (P : A → Type 0) (Q : B → Type 0) (m : Result A) (f : A → Result B)
    → Returns P m
    → ((a : A) → P a → Returns Q (f a))
    → Returns Q (m >>= f)
Returns-bind P Q (ok a) f h k = k a h
Returns-bind P Q (err e) f h k = tt

pub Returns-map :
    {A : Type 0} (P Q : A → Type 0) (m : Result A)
    → Returns P m
    → ((a : A) → P a → Q a)
    → Returns Q m
Returns-map P Q (ok a) h k = k a h
Returns-map P Q (err e) h k = tt

pub Returns-any : {A : Type 0} (m : Result A) → Returns (λ _. Unit {0}) m
Returns-any (ok a) = tt
Returns-any (err e) = tt
