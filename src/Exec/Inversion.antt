-- ===== src/Exec/Inversion.antt =====
-- A run that returns has run each of its steps, and a step that returns hands over to the rest.
use research_agent_ops.Base.{sym, ◌≡◌, refl, subst, ap, Bool, true, false, Option, none, some}
use research_agent_ops.Errors.{Code, Result, ok, err}
use research_agent_ops.Exec.{Exec, continue, lift, or_raise, raise_if, ◌>>=◌, ◌>>◌}

module _ {S A B : Type 0} where
  continue-ok :
      (r : Result A) (f : A → Exec S B) (u : S) {b : B} {t : S}
      → continue r f u ≡ (ok b, t)
      → (a : A) × (r ≡ ok a) × (f a u ≡ (ok b, t))
  continue-ok (ok a) f u h = (a, refl, h)
  continue-ok (err c) f u h = cc (ap (λ (r : Result B × S). r.0) h)

  pub bind-ok :
      (m : Exec S A) (f : A → Exec S B) (s : S) {b : B} {t : S}
      → (m >>= f) s ≡ (ok b, t)
      → (a : A) × (m s ≡ (ok a, (m s).1)) × (f a (m s).1 ≡ (ok b, t))
  bind-ok m f s h = let (a, e, k) = continue-ok (m s).0 f (m s).1 h in (a, (λ i. (e i, (m s).1)), k)

  -- a step that reads and checks only
  pub bind-ok_reads :
      (m : Exec S A) (f : A → Exec S B) (s : S) {b : B} {t : S}
      → (m s).1 ≡ s
      → (m >>= f) s ≡ (ok b, t)
      → (a : A) × (m s ≡ (ok a, s)) × (f a s ≡ (ok b, t))
  bind-ok_reads m f s {b} {t} stays h =
      let (a, e, k) = bind-ok m f s h in
      (a, subst (λ u. m s ≡ (ok a, u)) stays e, subst (λ u. f a u ≡ (ok b, t)) stays k)

  pub bind_step :
      (m : Exec S A) (f : A → Exec S B) (s : S) {a : A} {u : S}
      → m s ≡ (ok a, u)
      → (m >>= f) s ≡ f a u
  bind_step m f s {a} {u} h = ap (λ (r : Result A × S). continue r.0 f r.1) h

  pub bind_fails :
      (m : Exec S A) (f : A → Exec S B) (s : S) {c : Code} {u : S}
      → m s ≡ (err c, u)
      → (m >>= f) s ≡ (err c, u)
  bind_fails m f s {c} {u} h = ap (λ (r : Result A × S). continue r.0 f r.1) h

  -- a check of an argument that has passed
  pub check_step :
      (r : Result A) (f : A → Exec S B) (s : S) {a : A} → r ≡ ok a → (lift r >>= f) s ≡ f a s
  check_step r f s h = ap (λ (x : Result A). continue x f s) h

module _ {S B : Type 0} where
  pub raise_if-ok :
      (b : Bool) (c : Code) (k : Exec S B) (s : S) {a : B} {t : S}
      → (raise_if b c >> k) s ≡ (ok a, t)
      → (b ≡ false) × (k s ≡ (ok a, t))
  raise_if-ok true c k s h = cc (ap (λ (r : Result B × S). r.0) h)
  raise_if-ok false c k s h = (refl, h)

module _ {S : Type 0} where
  -- the same where nothing follows
  pub raise_if-ok_last :
      (b : Bool) (c : Code) (s : S) {a : Unit {0}} {t : S}
      → raise_if b c s ≡ (ok a, t)
      → (b ≡ false) × (t ≡ s)
  raise_if-ok_last true c s h = cc (ap (λ (r : Result (Unit {0}) × S). r.0) h)
  raise_if-ok_last false c s {a} {t} h = (refl, λ i. (sym h i).1)

module _ {S A B : Type 0} where
  pub or_raise-ok :
      (c : Code) (o : Option A) (f : A → Exec S B) (s : S) {b : B} {t : S}
      → (or_raise c o >>= f) s ≡ (ok b, t)
      → (a : A) × (o ≡ some a) × (f a s ≡ (ok b, t))
  or_raise-ok c none f s h = cc (ap (λ (r : Result B × S). r.0) h)
  or_raise-ok c (some a) f s h = (a, refl, h)
