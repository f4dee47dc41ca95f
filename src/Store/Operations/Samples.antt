-- ===== src/Store/Operations/Samples.antt =====
-- The journal at concrete inputs: tests, and an instance of each theorem with hypotheses.
use research_agent_ops.Base.{
  ℕ, Option, String, ◌≡◌, refl, ◌≢◌, true, none, List, [], ◌∷◌, length, eq_iff,
}
use research_agent_ops.Errors.{ok, err, idempotency_conflict, operation_terminal, integrity_error}
use research_agent_ops.Json.{object, end}
use research_agent_ops.Store.Schema.{Store, Datetime, empty_store, OperationRecord, JsonText}
use research_agent_ops.Store.Operations.{
  OperationRequest, begin_operation, append_operation_event, finish_operation, check_result,
  next_sequence,
}
use research_agent_ops.Store.Checks.{require_text, require_digest, encode_time, json_object}
use research_agent_ops.Store.Operations.Settled.{Extends}
use research_agent_ops.Store.Operations.Replay.{begin_again, begin_conflict}
use research_agent_ops.Store.Operations.Finality.{finish_again, finish_conflict}
use research_agent_ops.Store.Operations.Sequence.{IsSound}
use research_agent_ops.Store.Operations.History.{
  Call, begin_, append_, finish_, run, perform, run-Extends, run_ends_well,
}

abbrev noon : Datetime
noon = record { instant = 43200000000; aware = true }

abbrev later : Datetime
later = record { instant = 43200000001; aware = true }

abbrev digest_a : String
digest_a = "sha256:aaaaaaaaaaaaaaaaaaaaaaaaaaaaaaaaaaaaaaaaaaaaaaaaaaaaaaaaaaaaaaaa"

abbrev digest_b : String
digest_b = "sha256:bbbbbbbbbbbbbbbbbbbbbbbbbbbbbbbbbbbbbbbbbbbbbbbbbbbbbbbbbbbbbbbb"

abbrev launch : OperationRequest
launch = record {
  project_id = "p";
  command = "run";
  idempotency_key = "k";
  request_digest = digest_a;
}

-- what the first call returns and leaves
begun :
    (r : OperationRecord) × (t : Store) × (begin_operation launch "op-1" noon empty_store
      ≡ (ok r, t))
unfolding begin_operation require_text require_digest encode_time json_object
begun = (_, _, refl)

begin_again_example : begin_operation launch "op-2" later begun.1 ≡ (ok begun.0, begun.1)
unfolding require_text
begin_again_example = begin_again launch "op-1" "op-2" noon later empty_store begun.2 refl refl

begin_conflict_example :
    begin_operation (record launch { request_digest = digest_b }) "op-2" later begun.1
    ≡ (err idempotency_conflict, begun.1)
unfolding require_text require_digest
begin_conflict_example =
    begin_conflict launch "op-1" "op-2" digest_b noon later empty_store begun.2 refl refl refl
      (λ e. cc ((eq_iff digest_a digest_b).1 e))

ended :
    (r : OperationRecord) × (t : Store) × (finish_operation "op-1" "succeeded" later none begun.1
      ≡ (ok r, t))
unfolding begun finish_operation require_text encode_time json_object
ended = (_, _, refl)

finish_again_example : finish_operation "op-1" "succeeded" noon none ended.1 ≡ (ok ended.0, ended.1)
finish_again_example = finish_again "op-1" "succeeded" later noon none begun.1 ended.2 refl

rechecked :
    (c : ℕ × Option JsonText × JsonText) × (check_result "op-1" "failed" later none ended.1
      ≡ (ok c, ended.1))
unfolding check_result require_text encode_time json_object
rechecked = (_, refl)

finish_conflict_example :
    finish_operation "op-1" "failed" later none ended.1 ≡ (err operation_terminal, ended.1)
finish_conflict_example =
    finish_conflict "op-1" "succeeded" "failed" later later none none begun.1 ended.2 rechecked.1
      (λ e. cc ((eq_iff "succeeded" "failed").1 e))

abbrev calls : List Call
calls =
    begin_ launch "op-1" noon
    ∷ append_ "op-1" "launched" later (object end)
    ∷ finish_ "op-1" "succeeded" later none
    ∷ append_ "op-1" "late" later (object end)
    ∷ []

-- the call behind the finish is refused
three_events : length (run calls empty_store).operation_events ≡ 3
unfolding run begin_operation append_operation_event finish_operation require_text require_digest
    encode_time json_object
three_events = refl

run-Extends_example : Extends begun.1 (run calls begun.1)
run-Extends_example = run-Extends calls begun.1

IsSound-empty : IsSound empty_store
unfolding next_sequence
IsSound-empty = record { rooted = tt; dense = λ id. refl }

run_ends_well_example :
    IsSound (run calls empty_store)
    × ((perform (begin_ launch "op-3" noon) (run calls empty_store)).0 ≢ err integrity_error)
run_ends_well_example = run_ends_well calls (begin_ launch "op-3" noon) empty_store IsSound-empty
