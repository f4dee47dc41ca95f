-- ===== src/Store/Operations/Finality.antt =====
-- A finish that is repeated (`finish_operation` of src/researchctl/runtime/store.py).
use research_agent_ops.Base.{
  ℕ, String, ◌≡◌, refl, sym, ap, ◌∙◌, ◌≢◌, subst, Bool, true, false, Option, none, some, ◌==◌, ◌&&◌,
  string_eq, option_eq, option_beq_iff, find, find-update_self, eq_iff, arith, Bool-cases, inl, inr,
  Option-cases,
}
use research_agent_ops.Errors.{Result, ok, err, operation_terminal}
use research_agent_ops.Json.{Json}
use research_agent_ops.Exec.{◌>>◌}
use research_agent_ops.Exec.Inversion.{bind-ok, bind-ok_reads, bind_step, bind_fails}
use research_agent_ops.Store.Schema.{Store, JsonText, Datetime, OperationRow, OperationRecord}
use research_agent_ops.Store.Checks.{encode_time}
use research_agent_ops.Store.Transaction.{
  write_transaction, write_transaction-ok, write_transaction_runs,
}
use research_agent_ops.Store.Operations.{
  has_id, is_terminal, same_result, same_text, finished, append_next, mark_finished, finish_running,
  finish_body, finish_operation, check_result, read_back, insert_event,
}
use research_agent_ops.Store.Operations.Replay.{read_back-state}

-- The operation is terminal, with this result.
pub record IsFinished (id result : String) (stored : Option JsonText) (s : Store) : Type 0 where
  pub row : OperationRow
  pub found : find (has_id id) s.operations ≡ some row
  pub terminal_state : is_terminal row.state ≡ true
  pub kept : same_result row result stored ≡ true

same_text_refl : (stored : Option JsonText) → same_text stored stored ≡ true
same_text_refl none = refl
same_text_refl (some t) = (eq_iff t.encoded t.encoded).1 refl

finish_running-IsFinished :
    (id result : String) (at : ℕ) (stored : Option JsonText) (payload : JsonText) (s : Store)
    (row : OperationRow) {t : Store}
    → find (has_id id) s.operations ≡ some row
    → finish_running id result at stored payload s ≡ (ok tt, t)
    → IsFinished id result stored t
unfolding finish_running append_next mark_finished insert_event
finish_running-IsFinished id result at stored payload s row {t} e h = record {
  row = finished at result stored row;
  found = ground (
    arith,
    find-update_self (has_id id) (finished at result stored) s.operations {x = row} (λ y p. p) e,
  );
  terminal_state = refl;
  kept = ground (arith, eq_iff result result, same_text_refl stored);
}

finish_body-IsFinished :
    (id result : String) (at : ℕ) (stored : Option JsonText) (payload : JsonText) (s : Store)
    {t : Store}
    → finish_body id result at stored payload s ≡ (ok tt, t)
    → IsFinished id result stored t
unfolding finish_body
finish_body-IsFinished id result at stored payload s {t} h =
    elim (Option-cases (find (has_id id) s.operations)) [
      | inl missing ↦ absurd (ground arith)
      | inr (row, e) ↦ elim (Bool-cases (is_terminal row.state)) [
        | inl done ↦ record {
          row = row;
          found = ground arith;
          terminal_state = done;
          kept = ground arith;
        }
        | inr live ↦ finish_running-IsFinished id result at stored payload s row e (ground arith)
      ]
    ]

finish_body_again :
    (id result : String) (at : ℕ) (stored : Option JsonText) (payload : JsonText) (s : Store)
    → IsFinished id result stored s
    → finish_body id result at stored payload s ≡ (ok tt, s)
unfolding finish_body
finish_body_again id result at stored payload s f =
    rw f.found (ground (arith, f.terminal_state, f.kept))

and_left : (a b : Bool) → (a && b) ≡ true → a ≡ true
and_left true b h = refl
and_left false b h = h

-- A row keeps one result.
other_result :
    (row : OperationRow) (result other : String) (stored stored' : Option JsonText)
    → same_result row result stored ≡ true
    → result ≢ other
    → same_result row other stored' ≡ false
other_result row result other stored stored' h ne =
    let kept : row.terminal_result ≡ some result =
      (option_beq_iff row.terminal_result (some result)).0
        (and_left (row.terminal_result == some result) (same_text row.result_json stored) h) in
    let differs : (row.terminal_result == some other) ≡ false =
      rw kept (ground (arith, eq_iff result other)) in
    ap (λ b. b && same_text row.result_json stored') differs

finish_body_conflict :
    (id result other : String) (at : ℕ) (stored stored' : Option JsonText) (payload : JsonText)
    (s : Store)
    → IsFinished id result stored s
    → result ≢ other
    → finish_body id other at stored' payload s ≡ (err operation_terminal, s)
unfolding finish_body
finish_body_conflict id result other at stored stored' payload s f ne =
    rw f.found
      (ground (arith, f.terminal_state, other_result f.row result other stored stored' f.kept ne))

check_result-state :
    (id result : String) (o : Datetime) (value : Option Json) (s : Store)
    → (check_result id result o value s).1 ≡ s
unfolding check_result
check_result-state id result o value s = ground arith

-- The checks do not depend on the state, and pass again at another time.
check_result_again :
    (id result : String) (o o' : Datetime) (value : Option Json) (s t : Store)
    {c : ℕ × Option JsonText × JsonText}
    → (check_result id result o value s).0 ≡ ok c
    → o'.aware ≡ true
    → check_result id result o' value t ≡ (ok (o'.instant, c.1, c.2), t)
unfolding check_result encode_time
check_result_again id result o o' value s t h aware = ground arith

finish_body-open :
    (id result : String) (at : ℕ) (stored : Option JsonText) (payload : JsonText) (s : Store)
    → ((finish_body id result at stored payload s).1.closed ≡ s.closed)
      × ((finish_body id result at stored payload s).1.writer_busy ≡ s.writer_busy)
unfolding finish_body finish_running append_next mark_finished insert_event
finish_body-open id result at stored payload s = ground arith

-- What a finish that returns has left behind.
record HasFinished (id result : String) (o : Datetime) (value : Option Json) (r : OperationRecord)
    (s t : Store) : Type 0 where
  checked : ℕ × Option JsonText × JsonText
  passes : (check_result id result o value s).0 ≡ ok checked
  done : IsFinished id result checked.1 t
  opened : t.closed ≡ false
  idle : t.writer_busy ≡ false
  reads : read_back id t ≡ (ok r, t)

transaction-HasFinished :
    (id result : String) (o : Datetime) (value : Option Json) (s : Store)
    (c : ℕ × Option JsonText × JsonText) (u : Store) {r : OperationRecord} {t : Store}
    → (check_result id result o value s).0 ≡ ok c
    → write_transaction (finish_body id result c.0 c.1 c.2) s ≡ (ok tt, u)
    → read_back id u ≡ (ok r, t)
    → HasFinished id result o value r s t
transaction-HasFinished id result o value s c u {r} {t} passes wrote reads =
    let (opened, idle, body) = write_transaction-ok (finish_body id result c.0 c.1 c.2) s wrote in
    let flags = finish_body-open id result c.0 c.1 c.2 s in
    let same : u ≡ t =
      sym (read_back-state id u) ∙ ap (λ (x : Result OperationRecord × Store). x.1) reads in
    let after : s.closed ≡ u.closed =
      sym flags.0 ∙ ap (λ (x : Result (Unit {0}) × Store). x.1.closed) body in
    let after_busy : s.writer_busy ≡ u.writer_busy =
      sym flags.1 ∙ ap (λ (x : Result (Unit {0}) × Store). x.1.writer_busy) body in
    record {
      checked = c;
      passes = passes;
      done =
          subst (IsFinished id result c.1) same
            (finish_body-IsFinished id result c.0 c.1 c.2 s body);
      opened = subst (λ (x : Store). x.closed ≡ false) same (sym after ∙ opened);
      idle = subst (λ (x : Store). x.writer_busy ≡ false) same (sym after_busy ∙ idle);
      reads = subst (λ x. read_back id x ≡ (ok r, t)) same reads;
    }

finish_operation-HasFinished :
    (id result : String) (o : Datetime) (value : Option Json) (s : Store) {r : OperationRecord}
    {t : Store}
    → finish_operation id result o value s ≡ (ok r, t)
    → HasFinished id result o value r s t
unfolding finish_operation
finish_operation-HasFinished id result o value s {r} {t} h =
    let (c, passes, wrote) =
      bind-ok_reads (check_result id result o value)
        (λ c. write_transaction (finish_body id result c.0 c.1 c.2) >> read_back id) s
        (check_result-state id result o value s) h in
    let (_, writes, reads) =
      bind-ok (write_transaction (finish_body id result c.0 c.1 c.2)) (λ _. read_back id) s wrote in
    transaction-HasFinished id result o value s c _ (ap (λ x. x.0) passes) writes reads

-- If finish_operation returns a record, then finishing the same operation with the same result in
-- the store that it leaves, at any time with an offset, returns the same record, and the store is
-- unchanged.
pub finish_again :
    (id result : String) (o o' : Datetime) (value : Option Json) (s : Store) {r : OperationRecord}
    {t : Store}
    → finish_operation id result o value s ≡ (ok r, t)
    → o'.aware ≡ true
    → finish_operation id result o' value t ≡ (ok r, t)
unfolding finish_operation
finish_again id result o o' value s {r} {t} h aware =
    let f = finish_operation-HasFinished id result o value s h in
    let body = finish_body id result o'.instant f.checked.1 f.checked.2 in
    bind_step (check_result id result o' value)
      (λ c. write_transaction (finish_body id result c.0 c.1 c.2) >> read_back id) t
      (check_result_again id result o o' value s t f.passes aware)
    ∙ bind_step (write_transaction body) (λ _. read_back id) t
        (write_transaction_runs body t (ok tt) f.opened f.idle
          (finish_body_again id result o'.instant f.checked.1 f.checked.2 t f.done))
    ∙ f.reads

-- If finish_operation returns a record, then finishing the same operation in the store that it
-- leaves with another terminal result, and arguments that pass the method's checks, raises
-- operation_terminal, and the store is unchanged.
pub finish_conflict :
    (id result other : String) (o o' : Datetime) (value value' : Option Json) (s : Store)
    {r : OperationRecord} {t : Store} {c : ℕ × Option JsonText × JsonText}
    → finish_operation id result o value s ≡ (ok r, t)
    → check_result id other o' value' t ≡ (ok c, t)
    → result ≢ other
    → finish_operation id other o' value' t ≡ (err operation_terminal, t)
unfolding finish_operation
finish_conflict id result other o o' value value' s {r} {t} {c} h passes ne =
    let f = finish_operation-HasFinished id result o value s h in
    let body = finish_body id other c.0 c.1 c.2 in
    bind_step (check_result id other o' value')
      (λ x. write_transaction (finish_body id other x.0 x.1 x.2) >> read_back id) t passes
    ∙ bind_fails (write_transaction body) (λ _. read_back id) t
        (write_transaction_runs body t (err operation_terminal) f.opened f.idle
          (finish_body_conflict id result other c.0 f.checked.1 c.1 c.2 t f.done ne))
