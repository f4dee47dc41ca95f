-- ===== src/Store/Transaction.antt =====
-- `_write_transaction` and `_read_lock` of src/researchctl/runtime/store.py: a body runs on the
-- open store, its writes are kept if it returns and rolled back if it raises.
use research_agent_ops.Base.{
  Bool-cases, ◌≡◌, Bool, false, if◌then◌else◌, if-holds, arith, inl, inr, subst, sym,
}
use research_agent_ops.Errors.{
  Result-cases, Code, Result, ok, err, runtime_store_closed, runtime_store_busy, integrity_error,
}
use research_agent_ops.Exec.{Exec, continue, ◌>>◌}
use research_agent_ops.Exec.Respects.{IsPreorder, Respects, Keep}
use research_agent_ops.Exec.Upholds.{EndsWell, Upholds}
use research_agent_ops.Store.Schema.{Store}

module _ {A : Type 0} where
  -- commit or rollback
  abbrev close_transaction : Store → Result A × Store → Result A × Store
  close_transaction before (ok a, after) = (ok a, after)
  close_transaction before (err c, after) = (err c, before)

  unfoldable pub write_transaction : Exec Store A → Exec Store A
  write_transaction body s =
      if s.closed
      then (err runtime_store_closed, s)
      else if s.writer_busy
      then (err runtime_store_busy, s)
      else close_transaction s (body s)

  unfoldable pub read_lock : (Store → A) → Exec Store A
  read_lock f s = if s.closed then (err runtime_store_closed, s) else (ok (f s), s)

  pub read_lock-ok : (f : Store → A) (s : Store) → s.closed ≡ false → read_lock f s ≡ (ok (f s), s)
  unfolding read_lock
  read_lock-ok f s opened = simp opened

  -- A query that has returned was made on the open store.
  pub read_lock_opened :
      (f : Store → A) (s : Store) {a : A} {t : Store}
      → read_lock f s ≡ (ok a, t)
      → (s.closed ≡ false) × (t ≡ s) × (f s ≡ a)
  unfolding read_lock
  read_lock_opened f s h = ground arith

  close_transaction-Respects :
      {R : Store → Store → Type 0}
      → IsPreorder R
      → (s : Store) (r : Result A × Store) → R s r.1
      → R s (close_transaction s r).1
  close_transaction-Respects R-IsPreorder s (ok a, t) h = h
  close_transaction-Respects R-IsPreorder s (err c, t) h = R-IsPreorder.same s

  pub Respects-write_transaction :
      {R : Store → Store → Type 0}
      → IsPreorder R
      → (body : Exec Store A) → Respects R body
      → Respects R (write_transaction body)
  unfolding write_transaction
  Respects-write_transaction {R} R-IsPreorder body h = record {
    at = λ s.
        if-holds (λ (r : Result A × Store). R s r.1) s.closed _ _ (λ _. R-IsPreorder.same s)
          (λ _.
            if-holds (λ (r : Result A × Store). R s r.1) s.writer_busy _ _
              (λ _. R-IsPreorder.same s)
              (λ _. close_transaction-Respects R-IsPreorder s (body s) (h.at s)));
  }

  pub Respects-read_lock :
      {R : Store → Store → Type 0} → IsPreorder R → (f : Store → A) → Respects R (read_lock f)
  unfolding read_lock
  Respects-read_lock {R} R-IsPreorder f = record {
    at = λ s.
        if-holds (λ (r : Result A × Store). R s r.1) s.closed _ _ (λ _. R-IsPreorder.same s)
          (λ _. R-IsPreorder.same s);
  }

  close_transaction-EndsWell :
      (P : Store → Type 0) (s : Store) (r : Result A × Store)
      → P s
      → EndsWell P r
      → EndsWell P (close_transaction s r)
  close_transaction-EndsWell P s (ok a, t) h e = e
  close_transaction-EndsWell P s (err c, t) h e = (h, λ x. e.1 (ground arith))

  -- A transaction that raises has written nothing.
  pub rolls_back :
      (body : Exec Store A) (s : Store) {c : Code}
      → (write_transaction body s).0 ≡ err c
      → (write_transaction body s).1 ≡ s
  unfolding write_transaction
  rolls_back body s h = ground arith

-- INSERT INTO: a row that breaks a UNIQUE or REFERENCES constraint raises IntegrityError.
unfoldable pub insert_row : (Store → Bool) → (Store → Store) → Exec Store (Unit {0})
insert_row clashes add s = if clashes s then (err integrity_error, s) else (ok tt, add s)

pub at-insert_row :
    {R : Store → Store → Type 0}
    → IsPreorder R
    → (clashes : Store → Bool) (add : Store → Store) (s : Store) → (clashes s ≡ false → R s (add s))
    → R s (insert_row clashes add s).1
unfolding insert_row
at-insert_row {R} R-IsPreorder clashes add s h =
    if-holds (λ (r : Result (Unit {0}) × Store). R s r.1) (clashes s) (err integrity_error, s)
      (ok tt, add s) (λ _. R-IsPreorder.same s) h

pub at-insert_row_then :
    {B : Type 0} {R : Store → Store → Type 0}
    → IsPreorder R
    → (clashes : Store → Bool) (add : Store → Store) (k : Exec Store B) (s : Store)
    → (clashes s ≡ false → R s (k (add s)).1)
    → R s ((insert_row clashes add >> k) s).1
unfolding insert_row
at-insert_row_then {R} R-IsPreorder clashes add k s h =
    if-holds (λ (r : Result (Unit {0}) × Store). R s (continue r.0 (λ _. k) r.1).1) (clashes s)
      (err integrity_error, s) (ok tt, add s) (λ _. R-IsPreorder.same s) h

-- A transaction that returns ran its body on the open store.
pub write_transaction-ok :
    {A : Type 0} (body : Exec Store A) (s : Store) {a : A} {t : Store}
    → write_transaction body s ≡ (ok a, t)
    → (s.closed ≡ false) × (s.writer_busy ≡ false) × (body s ≡ (ok a, t))
unfolding write_transaction
write_transaction-ok body s h = ground arith

pub write_transaction_runs :
    {A : Type 0} (body : Exec Store A) (s : Store) (r : Result A)
    → s.closed ≡ false
    → s.writer_busy ≡ false
    → body s ≡ (r, s)
    → write_transaction body s ≡ (r, s)
unfolding write_transaction
write_transaction_runs body s r open_ idle h = ground arith

-- A transaction rolls back what its body has written, so the invariant holds on both ways out.
pub Upholds-write_transaction :
    {A : Type 0} (P : Store → Type 0) (body : Exec Store A)
    → Upholds P body
    → Upholds P (write_transaction body)
unfolding write_transaction
Upholds-write_transaction {A} P body u = record {
  at = λ s h.
      if-holds (EndsWell P) s.closed _ _ (λ _. (h, λ e. cc))
        λ _.
          if-holds (EndsWell P) s.writer_busy _ _ (λ _. (h, λ e. cc))
            λ _. close_transaction-EndsWell P s (body s) h (u.at s h);
}

pub Upholds-read_lock : {A : Type 0} (P : Store → Type 0) (f : Store → A) → Upholds P (read_lock f)
unfolding read_lock
Upholds-read_lock P f = record {
  at = λ s h. if-holds (EndsWell P) s.closed _ _ (λ _. (h, λ e. cc)) (λ _. (h, λ e. cc));
}

-- A transaction keeps an invariant that its body restores before it returns.
pub Keeps-write_transaction :
    {A : Type 0} (P : Store → Type 0) (body : Exec Store A)
    → ((s : Store) (a : A) (t : Store) → P s → body s ≡ (ok a, t) → P t)
    → Respects (Keep P) (write_transaction body)
Keeps-write_transaction {A} P body h = record {
  at = λ s p. elim (Result-cases (write_transaction body s).0) [
    | inl (a, e) ↦
        h s a (write_transaction body s).1 p
          (write_transaction-ok body s (λ i. (e i, (write_transaction body s).1))).2
    | inr (c, e) ↦ subst P (sym (rolls_back body s e)) p
  ];
}

-- A row that was inserted broke no constraint.
pub insert_row-ok :
    (clashes : Store → Bool) (add : Store → Store) (s : Store) {a : Unit {0}} {t : Store}
    → insert_row clashes add s ≡ (ok a, t)
    → (clashes s ≡ false) × (t ≡ add s)
unfolding insert_row
insert_row-ok clashes add s {a} {t} h = elim (Bool-cases (clashes s)) [
  | inl e ↦ absurd (ground arith)
  | inr e ↦
      let added : ◌≡◌ {A = Result (Unit {0}) × Store} (ok tt, add s) (ok a, t) = rw e at h in
      (e, λ i. (sym added i).1)
]
