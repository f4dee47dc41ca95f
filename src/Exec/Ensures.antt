-- ===== src/Exec/Ensures.antt =====
-- What holds of the way a run ends, where a raise leaves the state of the run's begin.
use research_agent_ops.Base.{◌≡◌, refl, subst, sym, Bool, true, false, Option, none, some}
use research_agent_ops.Errors.{Code, Result, ok, err}
use research_agent_ops.Exec.{Exec, continue, or_raise, raise_if, ◌>>=◌, ◌>>◌}

module _ {S B : Type 0} (Q : Result B × S → Type 0) (s : S) (fail : (c : Code) → Q (err c, s)) where
  pub ensures-raise_if :
      (b : Bool) (c : Code) (k : Exec S B) → (b ≡ false → Q (k s)) → Q ((raise_if b c >> k) s)
  ensures-raise_if true c k h = fail c
  ensures-raise_if false c k h = h refl

  pub ensures-or_raise :
      {A : Type 0} (c : Code) (o : Option A) (f : A → Exec S B)
      → ((a : A) → o ≡ some a → Q (f a s))
      → Q ((or_raise c o >>= f) s)
  ensures-or_raise c none f h = fail c
  ensures-or_raise c (some a) f h = h a refl

  continue-ensures :
      {A : Type 0} (r : Result A) (f : A → Exec S B) (u : S)
      → u ≡ s
      → ((a : A) → r ≡ ok a → Q (f a s))
      → Q (continue r f u)
  continue-ensures (ok a) f u stays h = subst (λ v. Q (f a v)) (sym stays) (h a refl)
  continue-ensures (err c) f u stays h = subst (λ v. Q (err c, v)) (sym stays) (fail c)

  -- where the first part only reads
  pub ensures-reads :
      {A : Type 0} (m : Exec S A) (f : A → Exec S B)
      → (m s).1 ≡ s
      → ((a : A) → m s ≡ (ok a, s) → Q (f a s))
      → Q ((m >>= f) s)
  ensures-reads m f stays h =
      continue-ensures (m s).0 f (m s).1 stays (λ a e. h a (λ i. (e i, stays i)))

-- What holds of a result, wherever the run goes.
module _ {S A B : Type 0} (Q : Result B → Type 0) (fail : (c : Code) → Q (err c)) where
  continue-result :
      (r : Result A) (f : A → Exec S B) (u : S)
      → ((a : A) → r ≡ ok a → Q (f a u).0)
      → Q (continue r f u).0
  continue-result (ok a) f u h = h a refl
  continue-result (err c) f u h = fail c

  pub bind-result :
      (m : Exec S A) (f : A → Exec S B) (s : S)
      → ((a : A) → (m s).0 ≡ ok a → Q (f a (m s).1).0)
      → Q ((m >>= f) s).0
  bind-result m f s = continue-result (m s).0 f (m s).1
