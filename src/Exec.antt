-- ===== src/Exec.antt =====
-- Methods of the store: they read it, write it, and may raise. A raise does not by itself undo what
-- was written, so a run ends in a result and a state.
pub mod Respects
pub mod Inversion
pub mod Upholds
pub mod Ensures
pub mod Unmoved
pub mod Pair
use mathlib.Core.Path.{◌≡◌, refl}
use research_agent_ops.Base.{Bool, Option, none, some, true, false}
use research_agent_ops.Errors.{Code, Result, ok, err}

abbrev pub Exec {ℓ} : Type ℓ → Type ℓ → Type ℓ
Exec S A = S → Result A × S

module _ {ℓ} {S A : Type ℓ} where
  -- `assert x is not None`, and the other tests for a missing value
  abbrev pub or_raise : Code → Option A → Exec S A
  or_raise c none s = (err c, s)
  or_raise c (some a) s = (ok a, s)

  -- a check of an argument
  abbrev pub lift : Result A → Exec S A
  lift checked s = (checked, s)

  -- a query
  abbrev pub gets : (S → A) → Exec S A
  gets query s = (ok (query s), s)

  abbrev pub raise : Code → Exec S A
  raise c s = (err c, s)

  abbrev pub pure : A → Exec S A
  pure a s = (ok a, s)

module _ {ℓ} {S A B : Type ℓ} where
  -- The rest of a method runs only if the step before it has returned.
  abbrev pub continue : Result A → (A → Exec S B) → Exec S B
  continue (err c) rest s = (err c, s)
  continue (ok a) rest s = rest a s

  abbrev pub ◌>>=◌ : Exec S A → (A → Exec S B) → Exec S B
  ◌>>=◌ step rest s = let (result, after) = step s in continue result rest after

  abbrev pub ◌>>◌ : Exec S A → Exec S B → Exec S B
  step >> rest = step >>= λ _. rest

  infixl 10 ◌>>=◌ ◌>>◌

module _ {S : Type 0} where
  -- `if condition: raise`
  abbrev pub raise_if : Bool → Code → Exec S (Unit {0})
  raise_if true c s = (err c, s)
  raise_if false c s = (ok tt, s)

  -- an empty branch
  abbrev pub skip : Exec S (Unit {0})
  skip s = (ok tt, s)
