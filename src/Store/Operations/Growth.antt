-- ===== src/Store/Operations/Growth.antt =====
-- Steps of the journal methods (src/researchctl/runtime/store.py), as they bear on stored
-- operations.
use research_agent_ops.Base.{
  ℕ, String, ◌≡◌, refl, subst, false, Option, none, some, string_eq, arith, find, any, not, eq_iff,
  if-holds,
}
use research_agent_ops.Errors.{
  operation_id_conflict, idempotency_conflict, operation_not_found, operation_terminal,
}
use research_agent_ops.Json.{Json}
use research_agent_ops.Exec.{Exec, pure, raise_if, ◌>>◌}
use research_agent_ops.Exec.Respects.{
  Respects, Respects-bind, Respects-lift, Respects-raise_if, Respects-pure, Respects-or_raise,
  at-raise_if, at-or_raise, at-bind, at-bind_here,
}
use research_agent_ops.Store.Schema.{
  Store, OperationRow, OperationEvent, JsonText, running, Datetime,
}
use research_agent_ops.Store.Transaction.{
  Respects-write_transaction, Respects-read_lock, at-insert_row_then,
}
use research_agent_ops.Store.Operations.{
  has_id, is_terminal, insert_operation, insert_event, mark_finished, operation_clashes,
  add_operation, select_operation, begin_body, check_request, check_result, begin_operation,
  append_next, append_body, append_operation_event, finish_running, finish_body, finish_operation,
  read_back, get_operation, OperationRequest, new_operation, event_row, next_sequence, same_result,
}
use research_agent_ops.Store.Operations.Settled.{
  Extends, Extends-IsPreorder, Extends-trans, add_operation-Extends, insert_event-Extends,
  mark_finished-Extends, IsLive,
}

read_back-Extends : (id : String) → Respects Extends (read_back id)
unfolding read_back get_operation
read_back-Extends id =
    Respects-bind Extends-IsPreorder (get_operation id) _ (Respects-read_lock Extends-IsPreorder _)
      λ found. Respects-or_raise Extends-IsPreorder _ found

ruleset method_rules = (
  Extends-IsPreorder, Respects-bind, Respects-lift, Respects-pure, Respects-raise_if,
  Respects-write_transaction, read_back-Extends,
)

IsLive-added :
    (row : OperationRow) (s : Store)
    → row.state ≡ running
    → IsLive row.operation_id (add_operation row s)
IsLive-added row s live found h = ground (arith, eq_iff row.operation_id row.operation_id)

IsLive-found :
    (id : String) (s : Store) (row : OperationRow)
    → find (has_id id) s.operations ≡ some row
    → is_terminal row.state ≡ false
    → IsLive id s
IsLive-found id s row found live other h = ground arith

-- A new operation is running, so its first event changes no terminal journal.
start_operation-Extends :
    (q : OperationRequest) (id : String) (at : ℕ) (started : JsonText)
    → Respects Extends (select_operation q id at started none)
unfolding select_operation insert_operation
start_operation-Extends q id at started = record {
  at = λ s.
      at-raise_if Extends-IsPreorder (any (has_id id) s.operations) operation_id_conflict
        (insert_operation new >> write_start) s
        λ fresh.
          at-insert_row_then Extends-IsPreorder (operation_clashes new) (add_operation new)
            write_start s
            λ clear.
              Extends-trans s (add_operation new s) (write_start (add_operation new s)).1
                (add_operation-Extends new s clear)
                (at-bind Extends-IsPreorder (insert_event start) (λ _. pure id)
                  (add_operation new s)
                  (insert_event-Extends start (add_operation new s) (IsLive-added new s refl))
                  (λ _. Respects-pure Extends-IsPreorder id));
}
  where
    new : OperationRow
    new = new_operation q id at

    start : OperationEvent
    start = event_row id 0 "operation_started" at started

    write_start : Exec Store String
    write_start = insert_event start >> pure id

select_operation-Extends :
    (q : OperationRequest) (id : String) (at : ℕ) (started : JsonText) (row : Option OperationRow)
    → Respects Extends (select_operation q id at started row)
unfolding select_operation
select_operation-Extends q id at started none = start_operation-Extends q id at started
select_operation-Extends q id at started (some row) =
    Respects-bind Extends-IsPreorder (raise_if _ idempotency_conflict) _
      (Respects-raise_if Extends-IsPreorder _ _)
      λ _. Respects-pure Extends-IsPreorder row.operation_id

begin_body-Extends :
    (q : OperationRequest) (id : String) (at : ℕ) (started : JsonText)
    → Respects Extends (begin_body q id at started)
unfolding begin_body
begin_body-Extends q id at started = record {
  at = λ s. (select_operation-Extends q id at started _).at s;
}

check_request-Extends :
    (q : OperationRequest) (id : String) (observed_at : Datetime)
    → Respects Extends (check_request q id observed_at)
unfolding check_request
check_request-Extends q id observed_at = search method_rules depth 20

-- Beginning an operation extends the journal.
pub begin_operation-Extends :
    (q : OperationRequest) (id : String) (observed_at : Datetime)
    → Respects Extends (begin_operation q id observed_at)
unfolding begin_operation
begin_operation-Extends q id observed_at =
    search (method_rules, check_request-Extends, begin_body-Extends)

-- The row that is found decides, so a terminal journal gets no event.
append_next-Extends :
    (id kind : String) (at : ℕ) (payload : JsonText) (s : Store)
    → IsLive id s
    → Extends s (append_next id kind at payload s).1
unfolding append_next
append_next-Extends id kind at payload s live =
    at-bind Extends-IsPreorder (insert_event event) (λ _. pure event.sequence) s
      (insert_event-Extends event s live) (λ _. Respects-pure Extends-IsPreorder event.sequence)
  where
    event : OperationEvent
    event = event_row id (next_sequence id s.operation_events) kind at payload

append_body-Extends :
    (id kind : String) (at : ℕ) (payload : JsonText)
    → Respects Extends (append_body id kind at payload)
unfolding append_body
append_body-Extends id kind at payload = record {
  at = λ s.
      at-or_raise Extends-IsPreorder operation_not_found (find (has_id id) s.operations) _ s
        λ row found.
          at-raise_if Extends-IsPreorder (is_terminal row.state) operation_terminal
            (append_next id kind at payload) s
            λ running_.
              append_next-Extends id kind at payload s (IsLive-found id s row found running_);
}

operations-append_next :
    (id kind : String) (at : ℕ) (payload : JsonText) (s : Store)
    → (append_next id kind at payload s).1.operations ≡ s.operations
unfolding append_next insert_event
operations-append_next id kind at payload s = ground arith

-- Appending an event extends the journal.
pub append_operation_event-Extends :
    (id kind : String) (observed_at : Datetime) (payload : Json)
    → Respects Extends (append_operation_event id kind observed_at payload)
unfolding append_operation_event
append_operation_event-Extends id kind observed_at payload =
    search (method_rules, append_body-Extends) depth 20

finish_running-Extends :
    (id result : String) (at : ℕ) (stored : Option JsonText) (payload : JsonText) (s : Store)
    → IsLive id s
    → Extends s (finish_running id result at stored payload s).1
unfolding finish_running
finish_running-Extends id result at stored payload s live =
    at-bind_here Extends-IsPreorder (append_next id "operation_finished" at payload)
      (λ _. mark_finished id at result stored) s
      (append_next-Extends id "operation_finished" at payload s live)
      λ _.
        mark_finished-Extends id at result stored
          (append_next id "operation_finished" at payload s).1
          λ row h. live row (
            subst (λ rows. find (has_id id) rows ≡ some row)
              (operations-append_next id "operation_finished" at payload s) h)

finish_body-Extends :
    (id result : String) (at : ℕ) (stored : Option JsonText) (payload : JsonText)
    → Respects Extends (finish_body id result at stored payload)
unfolding finish_body
finish_body-Extends id result at stored payload = record {
  at = λ s.
      at-or_raise Extends-IsPreorder operation_not_found (find (has_id id) s.operations) _ s
        λ row found.
          if-holds (λ (m : Exec Store (Unit {0})). Extends s (m s).1) (is_terminal row.state)
            (raise_if (not (same_result row result stored)) operation_terminal)
            (finish_running id result at stored payload)
            (λ _. (Respects-raise_if Extends-IsPreorder _ operation_terminal).at s)
            λ live.
              finish_running-Extends id result at stored payload s
                (IsLive-found id s row found live);
}

check_result-Extends :
    (id result : String) (observed_at : Datetime) (value : Option Json)
    → Respects Extends (check_result id result observed_at value)
unfolding check_result
check_result-Extends id result observed_at value = search method_rules depth 20

-- Finishing an operation extends the journal.
pub finish_operation-Extends :
    (id result : String) (observed_at : Datetime) (value : Option Json)
    → Respects Extends (finish_operation id result observed_at value)
unfolding finish_operation
finish_operation-Extends id result observed_at value =
    search (method_rules, check_result-Extends, finish_body-Extends)
