-- ===== src/Exec/Upholds.antt =====
-- Actions that keep an invariant and, from a state that has it, never break a constraint of the
-- database: one rule for each way to build an action.
use research_agent_ops.Base.{◌≡◌, refl, ◌≢◌, Bool, true, false, Option, none, some, arith}
use research_agent_ops.Errors.{Code, Result, ok, err, integrity_error}
use research_agent_ops.Exec.{Exec, pure, lift, or_raise, continue, ◌>>=◌, ◌>>◌, raise_if}

-- How a run ended: in a state with the invariant, and not by an IntegrityError.
abbrev pub EndsWell : {S A : Type 0} → (S → Type 0) → Result A × S → Type 0
EndsWell P r = P r.1 × (r.0 ≢ err integrity_error)

pub record Upholds {S A : Type 0} (P : S → Type 0) (m : Exec S A) : Type 0 where
  pub at : (s : S) → P s → EndsWell P (m s)

module _ {S : Type 0} (P : S → Type 0) where
  module _ {A : Type 0} where
    pub EndsWell-ok : (a : A) (s : S) → P s → EndsWell P (pure a s)
    EndsWell-ok a s h = (h, λ e. cc)

    pub Upholds-pure : (a : A) → Upholds P (pure a)
    Upholds-pure a = record { at = EndsWell-ok a }

    pub Upholds-lift : (r : Result A) → r ≢ err integrity_error → Upholds P (lift r)
    Upholds-lift r n = record { at = λ s h. (h, n) }

    pub Upholds-or_raise :
        (c : Code) (o : Option A) → c ≢ integrity_error → Upholds P (or_raise c o)
    Upholds-or_raise c none n = record { at = λ s h. (h, λ e. n (ground arith)) }
    Upholds-or_raise c (some a) n = record { at = λ s h. (h, λ e. cc) }

  pub Upholds-raise_if : (b : Bool) (c : Code) → c ≢ integrity_error → Upholds P (raise_if b c)
  Upholds-raise_if true c n = record { at = λ s h. (h, λ e. n (ground arith)) }
  Upholds-raise_if false c n = record { at = λ s h. (h, λ e. cc) }

  module _ {A B : Type 0} where
    continue-EndsWell :
        (r : Result A) (f : A → Exec S B) (s : S)
        → EndsWell P (r, s)
        → ((a : A) → r ≡ ok a → EndsWell P (f a s))
        → EndsWell P (continue r f s)
    continue-EndsWell (ok a) f s h k = k a refl
    continue-EndsWell (err c) f s h k = (h.0, λ e. h.1 (ground arith))

    pub Upholds-bind :
        (m : Exec S A) (f : A → Exec S B)
        → Upholds P m
        → ((a : A) → Upholds P (f a))
        → Upholds P (m >>= f)
    Upholds-bind m f u k = record {
      at = λ s h.
          continue-EndsWell (m s).0 f (m s).1 (u.at s h) (λ a _. (k a).at (m s).1 (u.at s h).0);
    }

    -- where the rest may use what the run of `m` has shown
    pub ends-bind :
        (m : Exec S A) (f : A → Exec S B) (s : S)
        → EndsWell P (m s)
        → ((a : A) → (m s).0 ≡ ok a → EndsWell P (f a (m s).1))
        → EndsWell P ((m >>= f) s)
    ends-bind m f s h k = continue-EndsWell (m s).0 f (m s).1 h k

    pub ends-or_raise :
        (c : Code) (o : Option A) (f : A → Exec S B) (s : S)
        → P s
        → c ≢ integrity_error
        → ((a : A) → o ≡ some a → EndsWell P (f a s))
        → EndsWell P ((or_raise c o >>= f) s)
    ends-or_raise c none f s h n k = (h, λ e. n (ground arith))
    ends-or_raise c (some a) f s h n k = k a refl

  pub ends-raise_if :
      {B : Type 0} (b : Bool) (c : Code) (k : Exec S B) (s : S)
      → P s
      → c ≢ integrity_error
      → (b ≡ false → EndsWell P (k s))
      → EndsWell P ((raise_if b c >> k) s)
  ends-raise_if true c k s h n rest = (h, λ e. n (ground arith))
  ends-raise_if false c k s h n rest = rest refl
