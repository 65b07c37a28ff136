-- ===== src/Prelude/Results.antt =====
-- Go's pair of a value and an error, of which the code sets one: a value or an error of the package.
use mathlib.Core.Path.{◌≡◌, refl}
use mathlib.Core.Logic.{◌⊎◌, inl, inr}
use mathlib.Core.Bool.{Bool, true, false}
use mathlib.Core.Option.{Option, none, some}
use native.Mathlib.Omega.{arith}

pub data Fallible {ε ℓ} (E : Type ε) (A : Type ℓ) : Type (ε ⊔ ℓ) where
  err : E → Fallible E A
  ok : A → Fallible E A

module _ {ε} {E : Type ε} where
  infixl 5 ◌>>=◌
  infixl 5 ◌>>◌
  -- `x, err := m(); if err != nil { return err }`, and what follows it.
  abbrev pub ◌>>=◌ {α β} :
      {A : Type α} {B : Type β} → Fallible E A → (A → Fallible E B) → Fallible E B
  err problem >>= next = err problem
  ok value >>= next = next value

  abbrev pub ◌>>◌ {β} : {B : Type β} → Fallible E (Unit {0}) → Fallible E B → Fallible E B
  first >> second = first >>= λ done. second

  -- `if !holds { return err }`.
  abbrev pub require : Bool → E → Fallible E (Unit {0})
  require false problem = err problem
  require true problem = ok tt

  -- `if err != nil { return err }`.
  abbrev pub check : Option E → Fallible E (Unit {0})
  check (some problem) = err problem
  check none = ok tt

  -- The value of a two-valued map read, or `err`.
  abbrev pub found {α} : {A : Type α} → Option A → E → Fallible E A
  found (some value) problem = ok value
  found none problem = err problem

  pub ok_or_err {α} :
      {A : Type α} (m : Fallible E A)
      → ((value : A) × (m ≡ ok value)) ⊎ ((problem : E) × (m ≡ err problem))
  ok_or_err (err problem) = inr (problem, refl)
  ok_or_err (ok value) = inl (value, refl)

-- What a chain says of its links when it ends with a value.
pub bind-ok {ε α β} :
    {E : Type ε} {A : Type α} {B : Type β} (m : Fallible E A) {next : A → Fallible E B} {b : B}
    → (m >>= next) ≡ ok b
    → (a : A) × (m ≡ ok a) × (next a ≡ ok b)
bind-ok (err problem) h = absurd (cc h)
bind-ok (ok value) h = (value, refl, h)

pub require-ok {ε} :
    {E : Type ε} (holds : Bool) (problem : E) {u : Unit {0}}
    → require holds problem ≡ ok u
    → holds ≡ true
require-ok true problem h = refl
require-ok false problem h = absurd (cc h)

pub found-ok {ε α} :
    {E : Type ε} {A : Type α} (o : Option A) (problem : E) {a : A}
    → found o problem ≡ ok a
    → o ≡ some a
found-ok none problem h = absurd (cc h)
found-ok (some x) problem h = ground arith
