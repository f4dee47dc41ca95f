-- ===== src/Errors.antt =====
-- The error codes that the runtime store and the Task records raise (src/researchctl/errors.py,
-- src/researchctl/runtime/store.py, src/researchctl/services/task_records.py, src/researchctl/services/application.py): an RCPError by its
-- code, and the other exceptions by name.
use mathlib.Core.Path.{◌≡◌, refl}
use mathlib.Core.Logic.{◌⊎◌, inl, inr}

-- An exception. Its message, context and remediation texts are not modelled.
pub data Code : Type 0 where
  invalid_runtime_record invalid_runtime_timestamp invalid_runtime_payload : Code
  runtime_store_corrupt runtime_store_busy runtime_store_closed : Code
  idempotency_conflict operation_id_conflict reserved_operation_event : Code
  operation_not_found operation_terminal : Code
  invalid_runtime_session continued_session_not_found session_identity_conflict : Code
  session_terminal stale_session_observation session_not_found unauthorized_actor : Code
  session_token_rotation_forbidden : Code
  invalid_notification_commit notification_session_not_found notification_session_mismatch : Code
  notification_source_conflict notification_id_conflict notification_not_found : Code
  stale_notification notification_closed notification_reply_id_conflict : Code
  linear_projection_event_conflict linear_delivery_claim_conflict : Code
  linear_delivery_claim_not_found linear_delivery_receipt_invalid : Code
  linear_delivery_receipt_conflict linear_ingress_source_task_mismatch : Code
  linear_ingress_receipt_conflict linear_notification_origin_unverified : Code
  linear_source_marker_ambiguous : Code
  authorization_denied linear_delivery_port_contract_invalid linear_delivery_event_invalid : Code
  linear_session_reply_event_invalid session_scope_denied : Code
  invalid_status_update status_session_not_found status_session_mismatch : Code
  status_update_conflict invalid_snooze attention_not_found stale_attention : Code
  attention_resolved : Code
  invalid_task_record invalid_task_record_path invalid_task_store_entry task_not_found : Code
  duplicate_task_key task_id_conflict task_key_conflict immutable_task_identity stale_task : Code
  execution_domain_not_configured immutable_task_creation_time invalid_task_transition : Code
  invalid_task_update_time task_terminal invalid_task_initial_state : Code
  value_error assertion_error integrity_error : Code

pub data Result {ℓ} (A : Type ℓ) : Type ℓ where
  ok : A → Result A
  err : Code → Result A

pub Result-cases {ℓ} :
    {A : Type ℓ} (r : Result A) → ((a : A) × (r ≡ ok a)) ⊎ ((c : Code) × (r ≡ err c))
Result-cases (ok a) = inl (a, refl)
Result-cases (err c) = inr (c, refl)

-- Results one after the other.
abbrev pub and_then {ℓ κ} : {A : Type ℓ} {B : Type κ} → Result A → (A → Result B) → Result B
and_then (ok a) f = f a
and_then (err c) f = err c

pub and_then-ok {ℓ κ} :
    {A : Type ℓ} {B : Type κ} (r : Result A) (f : A → Result B) {b : B}
    → and_then r f ≡ ok b
    → (a : A) × (r ≡ ok a) × (f a ≡ ok b)
and_then-ok (ok a) f h = (a, refl, h)
and_then-ok (err c) f h = cc
