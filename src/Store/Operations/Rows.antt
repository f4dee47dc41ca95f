-- ===== src/Store/Operations/Rows.antt =====
-- The rows of operations and of their events, and the statements that write them (src/researchctl/runtime/store.py).
use Prim.Native.Nat.{max}
use research_agent_ops.Base.{
  ℕ, ◌+◌, String, Bool, true, false, ◌&&◌, ◌||◌, not, Option, some, List, [], ◌∷◌, ◌==◌, nat_eq,
  string_eq, option_eq, if◌then◌else◌, any, update,
}
use research_agent_ops.Errors.{ok}
use research_agent_ops.Exec.{Exec}
use research_agent_ops.Store.Schema.{
  Store, OperationRow, OperationEvent, OperationState, running, terminal, JsonText,
}
use research_agent_ops.Store.Transaction.{insert_row}

-- WHERE operation_id = ?
abbrev pub has_id : String → OperationRow → Bool
has_id id row = row.operation_id == id

-- WHERE project_id = ? AND command = ? AND idempotency_key = ?
abbrev pub has_request : String → String → String → OperationRow → Bool
has_request project_id command key row =
    row.project_id == project_id && (row.command == command && row.idempotency_key == key)

abbrev pub of_operation : String → OperationEvent → Bool
of_operation id event = event.operation_id == id

abbrev pub is_terminal : OperationState → Bool
is_terminal running = false
is_terminal terminal = true

-- COALESCE(MAX(sequence), -1) + 1 over the events of one operation
unfoldable pub next_sequence : String → List OperationEvent → ℕ
next_sequence id [] = 0
next_sequence id (e ∷ events) =
    if of_operation id e
    then max (e.sequence + 1) (next_sequence id events)
    else next_sequence id events

-- INSERT INTO operations: the primary key, and UNIQUE (project_id, command, idempotency_key)
abbrev pub operation_clashes : OperationRow → Store → Bool
operation_clashes row s =
    any
      (λ r.
        has_id row.operation_id r || has_request row.project_id row.command row.idempotency_key r)
      s.operations

abbrev pub add_operation : OperationRow → Store → Store
add_operation row s = record s { operations = row ∷ s.operations }

unfoldable pub insert_operation : OperationRow → Exec Store (Unit {0})
unfolding insert_row
insert_operation row = insert_row (operation_clashes row) (add_operation row)

-- INSERT INTO operation_events: PRIMARY KEY (operation_id, sequence), and the foreign key
abbrev pub event_clashes : OperationEvent → Store → Bool
event_clashes event s =
    any (λ e. of_operation event.operation_id e && e.sequence == event.sequence) s.operation_events
    || not (any (has_id event.operation_id) s.operations)

abbrev pub add_event : OperationEvent → Store → Store
add_event event s = record s { operation_events = event ∷ s.operation_events }

unfoldable pub insert_event : OperationEvent → Exec Store (Unit {0})
unfolding insert_row
insert_event event = insert_row (event_clashes event) (add_event event)

-- UPDATE operations SET state = 'terminal', ... WHERE operation_id = ?
abbrev pub finished : ℕ → String → Option JsonText → OperationRow → OperationRow
finished at result stored row = record row {
  state = terminal;
  finished_at = some at;
  terminal_result = some result;
  result_json = stored;
}

unfoldable pub mark_finished : String → ℕ → String → Option JsonText → Exec Store (Unit {0})
mark_finished id at result stored s =
    (ok tt, record s { operations = update (has_id id) (finished at result stored) s.operations })
