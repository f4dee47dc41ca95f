-- ===== src/Store/Operations/Constraints.antt =====
-- Steps of the journal methods (src/researchctl/runtime/store.py), as they bear on the sequence
-- numbers and on the constraints of the database.
use research_agent_ops.Base.{
  ℕ, String, ◌≡◌, refl, sym, ◌≢◌, Bool, true, false, not, Option, none, some, List, arith, find,
  any, any-of_find, if-holds, eq_iff, ◌||◌, ◌∷◌, find-none, [],
}
use research_agent_ops.Errors.{
  Result, err, integrity_error, operation_not_found, operation_terminal, operation_id_conflict,
  idempotency_conflict, reserved_operation_event,
}
use research_agent_ops.Json.{Json}
use research_agent_ops.Exec.{Exec, pure, raise_if, continue, ◌>>◌}
use research_agent_ops.Exec.Upholds.{
  Upholds, EndsWell, EndsWell-ok, Upholds-pure, Upholds-lift, Upholds-or_raise, Upholds-raise_if,
  Upholds-bind, ends-bind, ends-or_raise, ends-raise_if,
}
use research_agent_ops.Store.Schema.{Store, OperationRow, OperationEvent, JsonText, Datetime}
use research_agent_ops.Store.Checks.{require_text, require_digest, encode_time, json_object}
use research_agent_ops.Store.Transaction.{insert_row, Upholds-write_transaction, Upholds-read_lock}
use research_agent_ops.Store.Operations.{
  has_id, has_request, is_terminal, next_sequence, event_clashes, add_event, operation_clashes,
  add_operation, mark_finished, append_next, append_body, append_operation_event, insert_event,
  event_row, insert_operation, select_operation, begin_body, begin_operation, check_request,
  check_result, finish_running, finish_body, finish_operation, same_result, read_back,
  get_operation, OperationRequest, new_operation, stored_result,
}
use research_agent_ops.Store.Operations.Sequence.{
  IsSound, next_sequence_new, add_event-IsSound, event_fits, add_operation-IsSound,
  mark_finished-IsSound,
}

pub require_text-fits : (t : String) → require_text t ≢ err integrity_error
unfolding require_text
require_text-fits t e = ground arith

require_digest-fits : (t : String) → require_digest t ≢ err integrity_error
unfolding require_digest
require_digest-fits t e = ground arith

pub encode_time-fits : (t : Datetime) → encode_time t ≢ err integrity_error
unfolding encode_time
encode_time-fits t e = ground arith

json_object-fits : (v : Json) → json_object v ≢ err integrity_error
unfolding json_object
json_object-fits v e = ground arith

stored_result-fits : (v : Option Json) → stored_result v ≢ err integrity_error
stored_result-fits none e = cc
stored_result-fits (some v) e = ground (arith, json_object-fits v)

insert_event-EndsWell :
    (e : OperationEvent) (s : Store)
    → IsSound s
    → any (has_id e.operation_id) s.operations ≡ true
    → e.sequence ≡ next_sequence e.operation_id s.operation_events
    → EndsWell IsSound (insert_event e s)
unfolding insert_event
insert_event-EndsWell e s h there next =
    if-holds (EndsWell IsSound) (event_clashes e s) _ _
      (λ clash. absurd (ground (arith, event_fits e s there next)))
      (λ _. EndsWell-ok IsSound tt (add_event e s) (add_event-IsSound e s h there next))

append_next-EndsWell :
    (id kind : String) (at : ℕ) (payload : JsonText) (s : Store)
    → IsSound s
    → any (has_id id) s.operations ≡ true
    → EndsWell IsSound (append_next id kind at payload s)
unfolding append_next
append_next-EndsWell id kind at payload s h there =
    ends-bind IsSound (insert_event event) (λ _. pure event.sequence) s
      (insert_event-EndsWell event s h there refl)
      λ _ ran.
        EndsWell-ok IsSound event.sequence (insert_event event s).1
          (insert_event-EndsWell event s h there refl).0
  where
    event : OperationEvent
    event = event_row id (next_sequence id s.operation_events) kind at payload

append_body-Upholds :
    (id kind : String) (at : ℕ) (payload : JsonText)
    → Upholds IsSound (append_body id kind at payload)
unfolding append_body
append_body-Upholds id kind at payload = record {
  at = λ s h.
      ends-or_raise IsSound operation_not_found (find (has_id id) s.operations) _ s h (λ e. cc)
        λ row found.
          ends-raise_if IsSound (is_terminal row.state) operation_terminal
            (append_next id kind at payload) s h (λ e. cc)
            λ _.
              append_next-EndsWell id kind at payload s h
                (any-of_find (has_id id) s.operations found);
}

finish_running-EndsWell :
    (id result : String) (at : ℕ) (stored : Option JsonText) (payload : JsonText) (s : Store)
    → IsSound s
    → any (has_id id) s.operations ≡ true
    → EndsWell IsSound (finish_running id result at stored payload s)
unfolding finish_running mark_finished
finish_running-EndsWell id result at stored payload s h there =
    ends-bind IsSound (append_next id "operation_finished" at payload)
      (λ _. mark_finished id at result stored) s
      (append_next-EndsWell id "operation_finished" at payload s h there)
      λ _ ran.
        let t = (append_next id "operation_finished" at payload s).1 in
        EndsWell-ok IsSound tt (mark_finished id at result stored t).1 (
          mark_finished-IsSound id at result stored t
            (append_next-EndsWell id "operation_finished" at payload s h there).0)

finish_body-Upholds :
    (id result : String) (at : ℕ) (stored : Option JsonText) (payload : JsonText)
    → Upholds IsSound (finish_body id result at stored payload)
unfolding finish_body
finish_body-Upholds id result at stored payload = record {
  at = λ s h.
      ends-or_raise IsSound operation_not_found (find (has_id id) s.operations) _ s h (λ e. cc)
        λ row found.
          if-holds (λ (m : Exec Store (Unit {0})). EndsWell IsSound (m s)) (is_terminal row.state)
            (raise_if (not (same_result row result stored)) operation_terminal)
            (finish_running id result at stored payload)
            (λ _.
              (Upholds-raise_if IsSound (not (same_result row result stored)) operation_terminal
                  (λ e. cc)).at
                s h)
            λ _.
              finish_running-EndsWell id result at stored payload s h
                (any-of_find (has_id id) s.operations found);
}

any_or :
    (p q : OperationRow → Bool) (rows : List OperationRow)
    → any p rows ≡ false
    → any q rows ≡ false
    → any (λ r. p r || q r) rows ≡ false
any_or p q [] h k = refl
any_or p q (row ∷ rows) h k = ground (arith, any_or p q rows)

start_operation-EndsWell :
    (q : OperationRequest) (id : String) (at : ℕ) (started : JsonText) (s : Store)
    → IsSound s
    → find (has_request q.project_id q.command q.idempotency_key) s.operations ≡ none
    → EndsWell IsSound (select_operation q id at started none s)
unfolding select_operation insert_operation
start_operation-EndsWell q id at started s h unbound =
    ends-raise_if IsSound (any (has_id id) s.operations) operation_id_conflict
      (insert_row (operation_clashes new) (add_operation new) >> (insert_event start >> pure id)) s
      h (λ e. cc)
      λ fresh.
        if-holds
          (λ (r : Result (Unit {0}) × Store).
            EndsWell IsSound (continue r.0 (λ _. insert_event start >> pure id) r.1))
          (operation_clashes new s) _ _
          (λ clash. absurd (
            cc (
              any_or (has_id id) (has_request q.project_id q.command q.idempotency_key) s.operations
                fresh (find-none _ s.operations unbound))))
          λ _.
            ends-bind IsSound (insert_event start) (λ _. pure id) (add_operation new s)
              (started_well fresh)
              λ _ _.
                EndsWell-ok IsSound id (insert_event start (add_operation new s)).1
                  (started_well fresh).0
  where
    new : OperationRow
    new = new_operation q id at

    start : OperationEvent
    start = event_row id 0 "operation_started" at started

    started_well :
        any (has_id id) s.operations ≡ false
        → EndsWell IsSound (insert_event start (add_operation new s))
    started_well fresh =
        insert_event-EndsWell start (add_operation new s) (add_operation-IsSound new s h)
          (ground (arith, eq_iff id id))
          (sym (next_sequence_new id s.operations s.operation_events h.rooted fresh))

select_operation-EndsWell :
    (q : OperationRequest) (id : String) (at : ℕ) (started : JsonText) (row : Option OperationRow)
    (s : Store)
    → IsSound s
    → find (has_request q.project_id q.command q.idempotency_key) s.operations ≡ row
    → EndsWell IsSound (select_operation q id at started row s)
select_operation-EndsWell q id at started none s h e =
    start_operation-EndsWell q id at started s h e
select_operation-EndsWell q id at started (some row) s h e =
    unfold select_operation in
    ends-raise_if IsSound _ idempotency_conflict (pure row.operation_id) s h (λ e. cc)
      (λ _. EndsWell-ok IsSound row.operation_id s h)

begin_body-Upholds :
    (q : OperationRequest) (id : String) (at : ℕ) (started : JsonText)
    → Upholds IsSound (begin_body q id at started)
unfolding begin_body
begin_body-Upholds q id at started = record {
  at = λ s h. select_operation-EndsWell q id at started _ s h refl;
}

read_back-Upholds : (id : String) → Upholds IsSound (read_back id)
unfolding read_back get_operation
read_back-Upholds id =
    Upholds-bind IsSound (get_operation id) _ (Upholds-read_lock IsSound _)
      λ found. Upholds-or_raise IsSound _ found (λ e. cc)

ruleset upholding = (
  Upholds-bind, Upholds-lift, Upholds-pure, Upholds-write_transaction, read_back-Upholds,
  require_text-fits, require_digest-fits, encode_time-fits, json_object-fits, stored_result-fits,
)

reserved-Upholds : (b : Bool) → Upholds IsSound (raise_if b reserved_operation_event)
reserved-Upholds b = Upholds-raise_if IsSound b reserved_operation_event (λ e. cc)

check_request-Upholds :
    (q : OperationRequest) (id : String) (o : Datetime) → Upholds IsSound (check_request q id o)
unfolding check_request
check_request-Upholds q id o = search upholding depth 20

-- begin_operation keeps the journal sound and, from a sound journal, raises no IntegrityError.
pub begin_operation-Upholds :
    (q : OperationRequest) (id : String) (o : Datetime) → Upholds IsSound (begin_operation q id o)
unfolding begin_operation
begin_operation-Upholds q id o = search (upholding, check_request-Upholds, begin_body-Upholds)

-- append_operation_event does too.
pub append_operation_event-Upholds :
    (id kind : String) (o : Datetime) (payload : Json)
    → Upholds IsSound (append_operation_event id kind o payload)
unfolding append_operation_event
append_operation_event-Upholds id kind o payload =
    search (upholding, append_body-Upholds, reserved-Upholds) depth 20

check_result-Upholds :
    (id result : String) (o : Datetime) (value : Option Json)
    → Upholds IsSound (check_result id result o value)
unfolding check_result
check_result-Upholds id result o value = search upholding depth 20

-- finish_operation does too.
pub finish_operation-Upholds :
    (id result : String) (o : Datetime) (value : Option Json)
    → Upholds IsSound (finish_operation id result o value)
unfolding finish_operation
finish_operation-Upholds id result o value =
    search (upholding, check_result-Upholds, finish_body-Upholds)
