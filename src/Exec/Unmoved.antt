-- ===== src/Exec/Unmoved.antt =====
-- Runs that leave the state as it was, and predicates of the state behind a bind.
use research_agent_ops.Base.{◌≡◌, refl, ◌∙◌, sym, subst}
use research_agent_ops.Errors.{Result, ok, err}
use research_agent_ops.Exec.{Exec, continue, ◌>>=◌}
use research_agent_ops.Exec.Respects.{
  IsPreorder, Respects, Respects-bind, Respects-lift, Respects-pure, Respects-raise,
  Respects-raise_if,
}

pub record Unmoved {S : Type 0} (s t : S) : Type 0 where
  pub same : t ≡ s

pub Unmoved-IsPreorder : {S : Type 0} → IsPreorder (Unmoved {S = S})
Unmoved-IsPreorder = record {
  same = λ s. record { same = refl };
  then_ = λ s t u h k. record { same = k.same ∙ h.same };
}

pub ruleset unmoved_rules = (
  Unmoved-IsPreorder, Respects-bind, Respects-lift, Respects-pure, Respects-raise,
  Respects-raise_if,
)

module _ {S A : Type 0} (P : S → Type 0) where
  -- A rest that leaves the state as it is keeps what holds of it.
  pub unmoved-keeps : (m : Exec S A) (s : S) → Respects Unmoved m → P s → P (m s).1
  unmoved-keeps m s h p = subst P (sym (h.at s).same) p

  continue-keeps :
      {B : Type 0} (r : Result A) (f : A → Exec S B) (u : S)
      → P u
      → ((a : A) → r ≡ ok a → P (f a u).1)
      → P (continue r f u).1
  continue-keeps (ok a) f u p h = h a refl
  continue-keeps (err c) f u p h = p

  -- The first part may move the state, and the rest knows its answer.
  pub bind-keeps :
      {B : Type 0} (m : Exec S A) (f : A → Exec S B) (s : S)
      → P (m s).1
      → ((a : A) → (m s).0 ≡ ok a → P (f a (m s).1).1)
      → P ((m >>= f) s).1
  bind-keeps m f s = continue-keeps (m s).0 f (m s).1
