-- ===== src/Store/Operations/Replay.antt =====
-- Idempotency keys (`begin_operation` of src/researchctl/runtime/store.py).
use research_agent_ops.Base.{
  ℕ, String, ◌≡◌, refl, ◌≢◌, ◌∙◌, sym, subst, ap, true, false, Option, none, some, string_eq, find,
  eq_iff, arith,
}
use research_agent_ops.Errors.{Result, ok, err, idempotency_conflict}
use research_agent_ops.Exec.{◌>>=◌}
use research_agent_ops.Exec.Inversion.{bind-ok, bind-ok_reads, bind_step, bind_fails}
use research_agent_ops.Store.Schema.{Store, JsonText, Datetime, OperationRow, OperationRecord}
use research_agent_ops.Store.Checks.{json_object, encode_time, require_text, require_digest}
use research_agent_ops.Store.Transaction.{
  write_transaction, write_transaction-ok, write_transaction_runs,
}
use research_agent_ops.Store.Operations.{
  OperationRequest, started_payload, has_request, begin_body, select_operation, begin_operation,
  check_request, read_back, insert_operation, insert_event, get_operation, new_operation,
}

started_encodes : (q : OperationRequest) → (t : JsonText) × (json_object (started_payload q) ≡ ok t)
unfolding json_object
started_encodes q = (_, refl)

-- The request is bound to a row with its digest.
pub record IsBound (q : OperationRequest) (id : String) (s : Store) : Type 0 where
  pub row : OperationRow
  pub found : find (has_request q.project_id q.command q.idempotency_key) s.operations ≡ some row
  pub same_digest : row.request_digest ≡ q.request_digest
  pub same_id : row.operation_id ≡ id

select_operation-IsBound :
    (q : OperationRequest) (id : String) (at : ℕ) (started : JsonText) (row : Option OperationRow)
    (s : Store) {selected : String} {t : Store}
    → find (has_request q.project_id q.command q.idempotency_key) s.operations ≡ row
    → select_operation q id at started row s ≡ (ok selected, t)
    → IsBound q selected t
unfolding select_operation insert_operation insert_event
select_operation-IsBound q id at started (some existing) s {selected} {t} e h = record {
  row = existing;
  found = ground arith;
  same_digest = ground (arith, eq_iff existing.request_digest q.request_digest);
  same_id = ground arith;
}
select_operation-IsBound q id at started none s {selected} {t} e h = record {
  row = new_operation q id at;
  found = ground (
    arith,
    eq_iff q.project_id q.project_id,
    eq_iff q.command q.command,
    eq_iff q.idempotency_key q.idempotency_key,
  );
  same_digest = refl;
  same_id = ground arith;
}

begin_body-IsBound :
    (q : OperationRequest) (id : String) (at : ℕ) (started : JsonText) (s : Store)
    {selected : String} {t : Store}
    → begin_body q id at started s ≡ (ok selected, t)
    → IsBound q selected t
unfolding begin_body
begin_body-IsBound q id at started s h = select_operation-IsBound q id at started _ s refl h

-- A bound request is answered by its operation, and nothing is written.
begin_body_again :
    (q : OperationRequest) (id selected : String) (at : ℕ) (started : JsonText) (s : Store)
    → IsBound q selected s
    → begin_body q id at started s ≡ (ok selected, s)
unfolding begin_body select_operation
begin_body_again q id selected at started s bound = rw bound.found (
    ground
      (arith, eq_iff bound.row.request_digest q.request_digest, bound.same_digest, bound.same_id))

-- Another digest under a bound key is refused.
begin_body_conflict :
    (q : OperationRequest) (id selected digest : String) (at : ℕ) (started : JsonText) (s : Store)
    → IsBound q selected s
    → q.request_digest ≢ digest
    → begin_body (record q { request_digest = digest }) id at started s
      ≡ (err idempotency_conflict, s)
unfolding begin_body select_operation
begin_body_conflict q id selected digest at started s bound other =
    rw bound.found (ground (arith, eq_iff bound.row.request_digest digest, bound.same_digest))

check_request-state :
    (q : OperationRequest) (id : String) (observed_at : Datetime) (s : Store)
    → (check_request q id observed_at s).1 ≡ s
unfolding check_request
check_request-state q id observed_at s = ground arith

check_request-digest :
    (q : OperationRequest) (id : String) (o : Datetime) (s : Store) {c : ℕ × JsonText}
    → (check_request q id o s).0 ≡ ok c
    → require_digest q.request_digest ≡ ok tt
unfolding check_request
check_request-digest q id o s h = ground arith

-- The checks of a request that has passed them once, under another digest, ID and time.
check_again :
    (q : OperationRequest) (id id' digest : String) (o o' : Datetime) (s t : Store)
    {c : ℕ × JsonText}
    → (check_request q id o s).0 ≡ ok c
    → require_digest digest ≡ ok tt
    → require_text id' ≡ ok tt
    → o'.aware ≡ true
    → let q' = record q { request_digest = digest } in
      check_request q' id' o' t ≡ (ok (o'.instant, (started_encodes q').0), t)
unfolding check_request encode_time
check_again q id id' digest o o' s t h valid named aware =
    ground (arith, (started_encodes (record q { request_digest = digest })).1)

begin_body-open :
    (q : OperationRequest) (id : String) (at : ℕ) (started : JsonText) (s : Store)
    → ((begin_body q id at started s).1.closed ≡ s.closed)
      × ((begin_body q id at started s).1.writer_busy ≡ s.writer_busy)
unfolding begin_body select_operation insert_operation insert_event
begin_body-open q id at started s = ground arith

pub read_back-state : (id : String) (s : Store) → (read_back id s).1 ≡ s
unfolding read_back get_operation
read_back-state id s = ground arith

-- What a begin that returns has left behind.
record HasBegun (q : OperationRequest) (id : String) (o : Datetime) (r : OperationRecord)
    (s t : Store) : Type 0 where
  checked : ℕ × JsonText
  passes : (check_request q id o s).0 ≡ ok checked
  selected : String
  bound : IsBound q selected t
  opened : t.closed ≡ false
  idle : t.writer_busy ≡ false
  reads : read_back selected t ≡ (ok r, t)

transaction-HasBegun :
    (q : OperationRequest) (id : String) (o : Datetime) (s : Store) (c : ℕ × JsonText)
    (selected : String) (u : Store) {r : OperationRecord} {t : Store}
    → (check_request q id o s).0 ≡ ok c
    → write_transaction (begin_body q id c.0 c.1) s ≡ (ok selected, u)
    → read_back selected u ≡ (ok r, t)
    → HasBegun q id o r s t
transaction-HasBegun q id o s c selected u {r} {t} passes wrote reads =
    let (opened, idle, body) = write_transaction-ok (begin_body q id c.0 c.1) s wrote in
    let flags = begin_body-open q id c.0 c.1 s in
    let same : u ≡ t =
      sym (read_back-state selected u) ∙ ap (λ (x : Result OperationRecord × Store). x.1) reads in
    let after : s.closed ≡ u.closed =
      sym flags.0 ∙ ap (λ (x : Result String × Store). x.1.closed) body in
    let after_busy : s.writer_busy ≡ u.writer_busy =
      sym flags.1 ∙ ap (λ (x : Result String × Store). x.1.writer_busy) body in
    record {
      checked = c;
      passes = passes;
      selected = selected;
      bound = subst (IsBound q selected) same (begin_body-IsBound q id c.0 c.1 s body);
      opened = subst (λ (x : Store). x.closed ≡ false) same (sym after ∙ opened);
      idle = subst (λ (x : Store). x.writer_busy ≡ false) same (sym after_busy ∙ idle);
      reads = subst (λ x. read_back selected x ≡ (ok r, t)) same reads;
    }

begin_operation-HasBegun :
    (q : OperationRequest) (id : String) (o : Datetime) (s : Store) {r : OperationRecord}
    {t : Store}
    → begin_operation q id o s ≡ (ok r, t)
    → HasBegun q id o r s t
unfolding begin_operation
begin_operation-HasBegun q id o s {r} {t} h =
    let (c, passes, wrote) =
      bind-ok_reads (check_request q id o)
        (λ c. write_transaction (begin_body q id c.0 c.1) >>= read_back) s
        (check_request-state q id o s) h in
    let (selected, writes, reads) =
      bind-ok (write_transaction (begin_body q id c.0 c.1)) read_back s wrote in
    transaction-HasBegun q id o s c selected _ (ap (λ x. x.0) passes) writes reads

-- If begin_operation returns an operation, then beginning the same request again in the store that
-- it leaves, under any ID that is not blank and at any time with an offset, returns the same
-- operation, and the store is unchanged.
pub begin_again :
    (q : OperationRequest) (id id' : String) (o o' : Datetime) (s : Store) {r : OperationRecord}
    {t : Store}
    → begin_operation q id o s ≡ (ok r, t)
    → require_text id' ≡ ok tt
    → o'.aware ≡ true
    → begin_operation q id' o' t ≡ (ok r, t)
unfolding begin_operation
begin_again q id id' o o' s {r} {t} h named aware =
    let b = begin_operation-HasBegun q id o s h in
    let started = (started_encodes q).0 in
    bind_step (check_request q id' o')
      (λ c. write_transaction (begin_body q id' c.0 c.1) >>= read_back) t
      (check_again q id id' q.request_digest o o' s t b.passes
        (check_request-digest q id o s b.passes) named aware)
    ∙ bind_step (write_transaction (begin_body q id' o'.instant started)) read_back t (
        write_transaction_runs (begin_body q id' o'.instant started) t (ok b.selected) b.opened
          b.idle (begin_body_again q id' b.selected o'.instant started t b.bound))
    ∙ b.reads

-- If begin_operation returns an operation, then beginning a request with the same project, command
-- and key but another valid digest in the store that it leaves, under any ID that is not blank and
-- at any time with an offset, raises idempotency_conflict, and the store is unchanged.
pub begin_conflict :
    (q : OperationRequest) (id id' digest : String) (o o' : Datetime) (s : Store)
    {r : OperationRecord} {t : Store}
    → begin_operation q id o s ≡ (ok r, t)
    → require_text id' ≡ ok tt
    → require_digest digest ≡ ok tt
    → o'.aware ≡ true
    → q.request_digest ≢ digest
    → begin_operation (record q { request_digest = digest }) id' o' t
      ≡ (err idempotency_conflict, t)
unfolding begin_operation
begin_conflict q id id' digest o o' s {r} {t} h named valid aware other =
    let b = begin_operation-HasBegun q id o s h in
    let q' : OperationRequest = record q { request_digest = digest } in
    let started = (started_encodes q').0 in
    bind_step (check_request q' id' o')
      (λ c. write_transaction (begin_body q' id' c.0 c.1) >>= read_back) t
      (check_again q id id' digest o o' s t b.passes valid named aware)
    ∙ bind_fails (write_transaction (begin_body q' id' o'.instant started)) read_back t (
        write_transaction_runs (begin_body q' id' o'.instant started) t (err idempotency_conflict)
          b.opened b.idle
          (begin_body_conflict q id' b.selected digest o'.instant started t b.bound other))
