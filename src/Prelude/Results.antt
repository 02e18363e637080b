-- ===== src/Prelude/Results.antt =====
-- Exceptions as values, and methods that change an object: a function of the object's state that
-- returns its result with the new state, or the exception. The state at a raise is not kept: an
-- object whose method raised is dropped by every caller that is modelled.
use mathlib.Core.Path.{◌≡◌, refl}
use mathlib.Core.Logic.{◌⊎◌, inl, inr}
use mathlib.Core.Bool.{Bool, true, false}
use phantasma_py.Prelude.Tests.{if◌then◌else◌}

-- The exception classes; `value` is Python's ValueError, `unicode` its UnicodeError,
-- `overflow` its OverflowError, `unhashable` its TypeError.
pub data Error : Type 0 where
  serialization encoding crypto builder value unicode overflow unhashable : Error

pub data Result {ℓ} (A : Type ℓ) : Type ℓ where
  ok : A → Result A
  err : Error → Result A

-- A pure function of a result: the exception passes through.
abbrev pub and_then {ℓ κ} : {A : Type ℓ} {B : Type κ} → Result A → (A → Result B) → Result B
and_then (ok a) f = f a
and_then (err e) f = err e

-- The value of a result that is no exception
abbrev pub value_or {ℓ} : {A : Type ℓ} → A → Result A → A
value_or d (ok a) = a
value_or d (err e) = d

-- Inversion of a chain that returned.
pub and_then-eq-ok {ℓ κ} :
    {A : Type ℓ} {B : Type κ} (m : Result A) (f : A → Result B) {b : B}
    → and_then m f ≡ ok b
    → (a : A) × (m ≡ ok a) × (f a ≡ ok b)
and_then-eq-ok (ok a) f h = (a, refl, h)
and_then-eq-ok (err e) f h = cc

-- Inversion of a guard.
pub guard-eq-ok {ℓ} :
    {A : Type ℓ} (b : Bool) {m : Result A} (e : Error) {a : A}
    → (if b then m else err e) ≡ ok a
    → (b ≡ true) × (m ≡ ok a)
guard-eq-ok true e h = (refl, h)
guard-eq-ok false e h = cc

-- Which of two values was returned.
pub choice-eq-ok {ℓ} :
    {A : Type ℓ} (b : Bool) {x y a : A}
    → ◌≡◌ {A = Result A} (ok (if b then x else y)) (ok a)
    → ((b ≡ true) × (a ≡ x)) ⊎ ((b ≡ false) × (a ≡ y))
choice-eq-ok true h = inl (refl, cc)
choice-eq-ok false h = inr (refl, cc)

abbrev pub Method : Type 0 → Type 0 → Type 0
Method S A = S → Result (A × S)

module _ {S : Type 0} where
  infixl 5 ◌>>=◌ ◌>>◌
  unfoldable pub ◌>>=◌ : {A B : Type 0} → Method S A → (A → Method S B) → Method S B
  ◌>>=◌ m f s = and_then (m s) (λ p. f p.0 p.1)

  unfoldable pub ◌>>◌ : {A B : Type 0} → Method S A → Method S B → Method S B
  ◌>>◌ m n s = and_then (m s) (λ p. n p.1)

  unfoldable pub pure : {A : Type 0} → A → Method S A
  pure a s = ok (a, s)

  unfoldable pub raise : {A : Type 0} → Error → Method S A
  raise e s = err e

  unfoldable pub lift : {A : Type 0} → Result A → Method S A
  lift (ok a) s = ok (a, s)
  lift (err e) s = err e

-- To split on a computed result and keep the equation.
pub Result-cases {ℓ} :
    {A : Type ℓ} (m : Result A) → ((a : A) × (m ≡ ok a)) ⊎ ((e : Error) × (m ≡ err e))
Result-cases (ok a) = inl (a, refl)
Result-cases (err e) = inr (e, refl)
