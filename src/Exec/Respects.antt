-- ===== src/Exec/Respects.antt =====
-- What every run of an action does to the state, returning or raising: one rule for each way to
-- build an action. An invariant is the relation `P s → P s'`.
use research_agent_ops.Base.{
  sym, subst, ◌≡◌, refl, Bool, true, false, Option, none, some, if◌then◌else◌,
}
use research_agent_ops.Errors.{Code, Result, ok, err}
use research_agent_ops.Exec.{
  Exec, pure, raise, lift, gets, or_raise, continue, ◌>>=◌, ◌>>◌, raise_if, skip,
}

pub record IsPreorder {S : Type 0} (R : S → S → Type 0) : Type 0 where
  pub same : (s : S) → R s s
  pub then_ : (s t u : S) → R s t → R t u → R s u

-- Each run of `m` is a step of `R`.
pub record Respects {S A : Type 0} (R : S → S → Type 0) (m : Exec S A) : Type 0 where
  pub at : (s : S) → R s (m s).1

abbrev pub Keep : {S : Type 0} → (S → Type 0) → S → S → Type 0
Keep P s t = P s → P t

pub Keep-IsPreorder : {S : Type 0} (P : S → Type 0) → IsPreorder (Keep P)
Keep-IsPreorder P = record { same = λ s h. h; then_ = λ s t u f g h. g (f h) }

module _ {S : Type 0} {R : S → S → Type 0} (R-IsPreorder : IsPreorder R) where
  module _ {A : Type 0} where
    pub Respects-pure : (a : A) → Respects R (pure a)
    Respects-pure a = record { at = R-IsPreorder.same }

    pub Respects-raise : (c : Code) → Respects R (raise {A = A} c)
    Respects-raise c = record { at = R-IsPreorder.same }

    pub Respects-lift : (r : Result A) → Respects R (lift r)
    Respects-lift r = record { at = R-IsPreorder.same }

    pub Respects-gets : (f : S → A) → Respects R (gets f)
    Respects-gets f = record { at = R-IsPreorder.same }

    pub Respects-or_raise : (c : Code) (o : Option A) → Respects R (or_raise c o)
    Respects-or_raise c none = record { at = R-IsPreorder.same }
    Respects-or_raise c (some a) = record { at = R-IsPreorder.same }

    pub Respects-if :
        (b : Bool) (m n : Exec S A) → Respects R m → Respects R n → Respects R (if b then m else n)
    Respects-if true m n h k = h
    Respects-if false m n h k = k

  pub Respects-raise_if : (b : Bool) (c : Code) → Respects R (raise_if b c)
  Respects-raise_if true c = record { at = R-IsPreorder.same }
  Respects-raise_if false c = record { at = R-IsPreorder.same }

  pub Respects-skip : Respects R skip
  Respects-skip = record { at = R-IsPreorder.same }

  module _ {A B : Type 0} where
    continue-Respects :
        (r : Result A) (f : A → Exec S B)
        → ((a : A) → Respects R (f a))
        → (s : S) → R s (continue r f s).1
    continue-Respects (ok a) f h s = (h a).at s
    continue-Respects (err c) f h s = R-IsPreorder.same s

    pub Respects-bind :
        (m : Exec S A) (f : A → Exec S B)
        → Respects R m
        → ((a : A) → Respects R (f a))
        → Respects R (m >>= f)
    Respects-bind m f h k = record {
      at = λ s.
          R-IsPreorder.then_ s (m s).1 ((m >>= f) s).1 (h.at s)
            (continue-Respects (m s).0 f k (m s).1);
    }

-- The same at one state, where the rest of the action may use what a test has shown.
module _ {S B : Type 0} {R : S → S → Type 0} (R-IsPreorder : IsPreorder R) where
  pub at-raise_if :
      (b : Bool) (c : Code) (k : Exec S B) (s : S)
      → (b ≡ false → R s (k s).1)
      → R s ((raise_if b c >> k) s).1
  at-raise_if true c k s h = R-IsPreorder.same s
  at-raise_if false c k s h = h refl

  pub at-or_raise :
      {A : Type 0} (c : Code) (o : Option A) (f : A → Exec S B) (s : S)
      → ((a : A) → o ≡ some a → R s (f a s).1)
      → R s ((or_raise c o >>= f) s).1
  at-or_raise c none f s h = R-IsPreorder.same s
  at-or_raise c (some a) f s h = h a refl

  pub at-lift :
      {A : Type 0} (r : Result A) (f : A → Exec S B) (s : S)
      → ((a : A) → R s (f a s).1)
      → R s ((lift r >>= f) s).1
  at-lift (ok a) f s h = h a
  at-lift (err c) f s h = R-IsPreorder.same s

  pub at-bind :
      {A : Type 0} (m : Exec S A) (f : A → Exec S B) (s : S)
      → R s (m s).1
      → ((a : A) → Respects R (f a))
      → R s ((m >>= f) s).1
  at-bind m f s h k =
      R-IsPreorder.then_ s (m s).1 ((m >>= f) s).1 h
        (continue-Respects R-IsPreorder (m s).0 f k (m s).1)

  continue-at :
      {A : Type 0} (r : Result A) (f : A → Exec S B) (s : S)
      → ((a : A) → R s (f a s).1)
      → R s (continue r f s).1
  continue-at (ok a) f s h = h a
  continue-at (err c) f s h = R-IsPreorder.same s

  pub at-bind_here :
      {A : Type 0} (m : Exec S A) (f : A → Exec S B) (s : S)
      → R s (m s).1
      → ((a : A) → R (m s).1 (f a (m s).1).1)
      → R s ((m >>= f) s).1
  at-bind_here m f s h k =
      R-IsPreorder.then_ s (m s).1 ((m >>= f) s).1 h (continue-at (m s).0 f (m s).1 k)

  continue-at_ok :
      {A : Type 0} (r : Result A) (f : A → Exec S B) (s : S)
      → ((a : A) → r ≡ ok a → R s (f a s).1)
      → R s (continue r f s).1
  continue-at_ok (ok a) f s h = h a refl
  continue-at_ok (err c) f s h = R-IsPreorder.same s

  -- where the rest may use that the first part has returned
  pub at-bind_ok :
      {A : Type 0} (m : Exec S A) (f : A → Exec S B) (s : S)
      → R s (m s).1
      → ((a : A) → (m s).0 ≡ ok a → R (m s).1 (f a (m s).1).1)
      → R s ((m >>= f) s).1
  at-bind_ok m f s h k =
      R-IsPreorder.then_ s (m s).1 ((m >>= f) s).1 h (continue-at_ok (m s).0 f (m s).1 k)

  continue-at_reads :
      {A : Type 0} (r : Result A) (f : A → Exec S B) (s u : S)
      → u ≡ s
      → ((a : A) → r ≡ ok a → R s (f a s).1)
      → R s (continue r f u).1
  continue-at_reads (ok a) f s u stays h = subst (λ v. R s (f a v).1) (sym stays) (h a refl)
  continue-at_reads (err c) f s u stays h = subst (R s) (sym stays) (R-IsPreorder.same s)

  -- where the first part only reads
  pub at-bind_reads :
      {A : Type 0} (m : Exec S A) (f : A → Exec S B) (s : S)
      → (m s).1 ≡ s
      → ((a : A) → m s ≡ (ok a, s) → R s (f a s).1)
      → R s ((m >>= f) s).1
  at-bind_reads m f s stays h =
      continue-at_reads (m s).0 f s (m s).1 stays (λ a e. h a (λ i. (e i, stays i)))
