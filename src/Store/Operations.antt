-- ===== src/Store/Operations.antt =====
-- The operation journal (`begin_operation`, `append_operation_event`, `finish_operation`,
-- `get_operation`, `list_operations` of src/researchctl/runtime/store.py). Each method checks its
-- arguments, runs one transaction, and reads the operation back.
mod Rows
pub mod Settled
pub mod Growth
pub mod Replay
pub mod Finality
pub mod Sequence
pub mod Constraints
pub mod History
mod Samples
unfoldable pub use Rows.*
use Prim.Native.Nat.{max}
use Prim.Native.String.{compare}
use text.Mathlib.Text.{is_le}
use research_agent_ops.Base.{
  sort_by, is_earlier_by, leb, ℕ, ◌+◌, String, Bool, true, false, ◌&&◌, ◌||◌, not, Option, none,
  some, List, [], ◌∷◌, ◌==◌, nat_eq, string_eq, option_eq, ltb, if◌then◌else◌, find, any, update,
  select, map,
}
use research_agent_ops.Errors.{
  Result, ok, err, idempotency_conflict, operation_id_conflict, reserved_operation_event,
  operation_not_found, operation_terminal, assertion_error,
}
use research_agent_ops.Json.{Json, object, string, field, end}
use research_agent_ops.Exec.{Exec, pure, lift, gets, or_raise, ◌>>=◌, ◌>>◌, raise_if}
use research_agent_ops.Store.Schema.{
  Store, OperationRow, OperationEvent, OperationRecord, OperationState, running, terminal, Datetime,
  JsonText,
}
use research_agent_ops.Store.Checks.{require_text, require_digest, encode_time, json_object}
use research_agent_ops.Store.Transaction.{write_transaction, read_lock, insert_row}

-- ORDER BY sequence
abbrev is_ahead : OperationEvent → OperationEvent → Bool
is_ahead a b = leb a.sequence b.sequence

pub operation_from_row : Store → OperationRow → OperationRecord
unfolding sort_by
operation_from_row s row = record {
  row = row;
  events = sort_by is_ahead (select (of_operation row.operation_id) s.operation_events);
}

pub find_operation : String → Store → Option OperationRecord
unfolding operation_from_row
find_operation id s = elim (find (has_id id) s.operations) [
  | none ↦ none
  | some row ↦ some (operation_from_row s row)
]

pub get_operation : String → Exec Store (Option OperationRecord)
unfolding find_operation read_lock
get_operation id = read_lock (find_operation id)

-- `get_operation` and the assertion that follows it
pub read_back : String → Exec Store OperationRecord
unfolding get_operation
read_back id = do found ← get_operation id; or_raise assertion_error found

-- ORDER BY started_at, operation_id
abbrev is_earlier : OperationRow → OperationRow → Bool
is_earlier = is_earlier_by (λ r. r.started_at) (λ r. r.operation_id)

abbrev in_project : Option String → OperationRow → Bool
in_project none row = true
in_project (some project_id) row = row.project_id == project_id

pub list_operations : Option String → Exec Store (List OperationRecord)
unfolding sort_by operation_from_row read_lock
list_operations project_id = read_lock (λ s.
    map (operation_from_row s) (sort_by is_earlier (select (in_project project_id) s.operations)))

-- The arguments of `begin_operation`.
pub record OperationRequest : Type 0 where
  pub project_id : String
  pub command : String
  pub idempotency_key : String
  pub request_digest : String

abbrev started_payload : OperationRequest → Json
started_payload q = object (
    field "project_id" (string q.project_id) (
      field "command" (string q.command) (
        field "idempotency_key" (string q.idempotency_key)
          (field "request_digest" (string q.request_digest) end))))

abbrev new_operation : OperationRequest → String → ℕ → OperationRow
new_operation q id at = record {
  operation_id = id;
  project_id = q.project_id;
  command = q.command;
  idempotency_key = q.idempotency_key;
  request_digest = q.request_digest;
  state = running;
  started_at = at;
  finished_at = none;
  terminal_result = none;
  result_json = none;
}

abbrev event_row : String → ℕ → String → ℕ → JsonText → OperationEvent
event_row id sequence kind at payload = record {
  operation_id = id;
  sequence = sequence;
  kind = kind;
  observed_at = at;
  payload = payload;
}

-- The branch on the row that is bound to the request; it returns `selected_operation_id`.
select_operation :
    OperationRequest → String → ℕ → JsonText → Option OperationRow → Exec Store String
unfolding insert_operation insert_event
select_operation q id at started (some existing) = do
  raise_if (not (existing.request_digest == q.request_digest)) idempotency_conflict
  pure existing.operation_id
select_operation q id at started none = do
  collision ← gets (λ s. any (has_id id) s.operations)
  raise_if collision operation_id_conflict
  insert_operation (new_operation q id at)
  insert_event (event_row id 0 "operation_started" at started)
  pure id

pub begin_body : OperationRequest → String → ℕ → JsonText → Exec Store String
unfolding select_operation
begin_body q id at started = do
  existing ← gets (λ s. find (has_request q.project_id q.command q.idempotency_key) s.operations)
  select_operation q id at started existing

-- the checks at the head of the method
check_request : OperationRequest → String → Datetime → Exec Store (ℕ × JsonText)
check_request q id observed_at = do
  lift (require_text q.project_id)
  lift (require_text q.command)
  lift (require_text q.idempotency_key)
  lift (require_digest q.request_digest)
  lift (require_text id)
  at ← lift (encode_time observed_at)
  started ← lift (json_object (started_payload q))
  pure (at, started)

pub begin_operation : OperationRequest → String → Datetime → Exec Store OperationRecord
unfolding check_request begin_body write_transaction read_back
begin_operation q id observed_at = do
  checked ← check_request q id observed_at
  selected ← write_transaction (begin_body q id checked.0 checked.1)
  read_back selected

abbrev is_reserved : String → Bool
is_reserved kind = kind == "operation_started" || kind == "operation_finished"

-- The journal of a running operation is given one more event.
append_next : String → String → ℕ → JsonText → Exec Store ℕ
unfolding next_sequence insert_event
append_next id kind at payload = do
  sequence ← gets (λ s. next_sequence id s.operation_events)
  insert_event (event_row id sequence kind at payload)
  pure sequence

append_body : String → String → ℕ → JsonText → Exec Store ℕ
unfolding append_next
append_body id kind at payload = do
  row ← gets (λ s. find (has_id id) s.operations)
  operation ← or_raise operation_not_found row
  raise_if (is_terminal operation.state) operation_terminal
  append_next id kind at payload

pub append_operation_event : String → String → Datetime → Json → Exec Store OperationEvent
unfolding append_body write_transaction
append_operation_event id kind observed_at payload = do
  lift (require_text id)
  lift (require_text kind)
  raise_if (is_reserved kind) reserved_operation_event
  at ← lift (encode_time observed_at)
  copied ← lift (json_object payload)
  sequence ← write_transaction (append_body id kind at copied)
  pure (event_row id sequence kind at copied)

-- `result_json if result is not None else None`
abbrev stored_result : Option Json → Result (Option JsonText)
stored_result none = ok none
stored_result (some v) = elim (json_object v) [ ok t ↦ ok (some t) | err c ↦ err c ]

-- `dict(result or {})`
abbrev result_or_empty : Option Json → Json
result_or_empty none = object end
result_or_empty (some v) = v

abbrev same_text : Option JsonText → Option JsonText → Bool
same_text none none = true
same_text none (some b) = false
same_text (some a) none = false
same_text (some a) (some b) = a.encoded == b.encoded

abbrev same_result : OperationRow → String → Option JsonText → Bool
same_result row result stored =
    row.terminal_result == some result && same_text row.result_json stored

finish_running : String → String → ℕ → Option JsonText → JsonText → Exec Store (Unit {0})
unfolding append_next mark_finished
finish_running id result at stored payload = do
  append_next id "operation_finished" at payload
  mark_finished id at result stored

finish_body : String → String → ℕ → Option JsonText → JsonText → Exec Store (Unit {0})
unfolding finish_running
finish_body id result at stored payload = do
  row ← gets (λ s. find (has_id id) s.operations)
  operation ← or_raise operation_not_found row
  if is_terminal operation.state
      then raise_if (not (same_result operation result stored)) operation_terminal
      else finish_running id result at stored payload

-- the checks at the head of the method: the time, the stored result and the event's payload
pub check_result :
    String → String → Datetime → Option Json → Exec Store (ℕ × Option JsonText × JsonText)
check_result id result observed_at value = do
  lift (require_text id)
  lift (require_text result)
  at ← lift (encode_time observed_at)
  stored ← lift (stored_result value)
  payload ← lift (
      json_object (
        object
          (field "terminal_result" (string result) (field "result" (result_or_empty value) end))))
  pure (at, stored, payload)

pub finish_operation : String → String → Datetime → Option Json → Exec Store OperationRecord
unfolding check_result finish_body write_transaction read_back
finish_operation id result observed_at value = do
  checked ← check_result id result observed_at value
  write_transaction (finish_body id result checked.0 checked.1 checked.2)
  read_back id
