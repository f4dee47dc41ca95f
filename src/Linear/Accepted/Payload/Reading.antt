-- ===== src/Linear/Accepted/Payload/Reading.antt =====
-- The event of a stored payload (`linear_event_from_payload` of
-- src/researchctl/services/linear_delivery.py).
use research_agent_ops.Base.{
  ℕ, String, Bool, true, false, ◌&&◌, ◌||◌, not, Option, none, some, List, [], ◌∷◌, any, ◌==◌,
  string_eq, nat_eq, if◌then◌else◌,
}
use research_agent_ops.Errors.{
  and_then, and_then as ◌>>=◌, Result, ok, err, linear_delivery_event_invalid,
}
use research_agent_ops.Json.{Json, Fields, null, bool, int, string, object, field, end}
use research_agent_ops.Store.Delivery.Receipts.{lookup_field, has_fields}
use research_agent_ops.Linear.Remote.{Platform, LinearTarget, LinearProjectionConfigured}
use research_agent_ops.Linear.Accepted.{LinearAcceptedResultEvent}

abbrev pub event_keys : List String
event_keys =
    "version" ∷ "event_id" ∷ "agent_id" ∷ "project_id" ∷ "task_id" ∷ "session_id" ∷ "submission_id"
    ∷ "decision_id" ∷ "report_id" ∷ "report_revision" ∷ "accepted_merge_commit" ∷ "ci_subject_head"
    ∷ "ci_attestation_id" ∷ "workflow_id" ∷ "check_identity" ∷ "workflow_run_id" ∷ "check_run_id"
    ∷ "artifact_id" ∷ "task_digest" ∷ "submission_digest" ∷ "decision_digest" ∷ "report_digest"
    ∷ "target" ∷ "ci_projection" ∷ "renderer_id" ∷ "renderer_version" ∷ "payload_digest"
    ∷ "renderer_payload" ∷ "marker" ∷ "transport_body" ∷ []

abbrev pub target_keys : List String
target_keys = "workspace_id" ∷ "team_id" ∷ "project_id" ∷ "issue_id" ∷ []

only_keys : List String → Fields → Bool
only_keys keys end = true
only_keys keys (field key v rest) = any (λ k. k == key) keys && only_keys keys rest

-- `set(payload) == expected`
unfoldable pub has_exactly : Fields → List String → Bool
unfolding only_keys has_fields
has_exactly fs keys = has_fields fs keys && only_keys keys fs

-- `payload.get("version") == 1`, which holds of True too
abbrev pub is_one : Option Json → Bool
is_one (some (int n)) = n == 1
is_one (some (bool b)) = b
is_one _ = false

-- Whether a GitHub ID is a text or missing, and whether it is missing.
abbrev pub none_or_text : Option Json → Bool
none_or_text none = true
none_or_text (some null) = true
none_or_text (some (string s)) = true
none_or_text _ = false

abbrev pub is_none : Option Json → Bool
is_none none = true
is_none (some null) = true
is_none _ = false

-- The dict of the target.
abbrev pub target_fields : Option Json → Option Fields
target_fields (some (object fs)) = some fs
target_fields _ = none

-- Each of the GitHub IDs is a text or missing, and all or none are missing.
abbrev pub github_ids_shaped : Option Json → Option Json → Option Json → Bool
github_ids_shaped a b c =
    (none_or_text a && none_or_text b && none_or_text c)
    && (is_none a && is_none b && is_none c
        || not (is_none a) && not (is_none b) && not (is_none c))

module _ (platform : Platform) where
  -- `str` of a value
  unfoldable pub text_of : Json → String
  text_of (string s) = s
  text_of v = platform.json_str v

  -- `str(payload[key])`
  unfoldable pub text_at : String → Fields → Result String
  unfolding text_of lookup_field
  text_at key fs = elim (lookup_field key fs) [
    | none ↦ err linear_delivery_event_invalid
    | some v ↦ ok (text_of v)
  ]

  unfoldable pub optional_of : Option Json → Result (Option String)
  unfolding text_of
  optional_of none = err linear_delivery_event_invalid
  optional_of (some null) = ok none
  optional_of (some v) = ok (some (text_of v))

  -- `str(payload[key])`, unless the value is None
  unfoldable pub optional_at : String → Fields → Result (Option String)
  unfolding optional_of lookup_field
  optional_at key fs = optional_of (lookup_field key fs)

  abbrev pub or_invalid : {A : Type 0} → Option A → Result A
  or_invalid none = err linear_delivery_event_invalid
  or_invalid (some a) = ok a

  -- `int(payload[key])`
  unfoldable pub int_at : String → Fields → Result ℕ
  unfolding lookup_field
  int_at key fs = and_then (or_invalid (lookup_field key fs)) λ v. or_invalid (platform.json_int v)

  unfoldable pub projection_at : Option Json → Result LinearProjectionConfigured
  projection_at v = and_then (or_invalid v) λ w. or_invalid (platform.projection_of w)

  unfoldable pub target_from : Fields → Result LinearTarget
  unfolding text_at optional_at
  target_from fs = do
    workspace_id ← text_at "workspace_id" fs
    team_id ← text_at "team_id" fs
    project_id ← optional_at "project_id" fs
    issue_id ← text_at "issue_id" fs
    ok (record {
      workspace_id = workspace_id;
      team_id = team_id;
      project_id = project_id;
      issue_id = issue_id;
    })

  -- The event of a payload whose shape has been checked.
  unfoldable pub event_fields : Fields → Fields → Result LinearAcceptedResultEvent
  unfolding text_at optional_at int_at projection_at target_from
  event_fields payload target = do
    event_id ← text_at "event_id" payload
    agent_id ← text_at "agent_id" payload
    project_id ← text_at "project_id" payload
    task_id ← text_at "task_id" payload
    session_id ← text_at "session_id" payload
    submission_id ← text_at "submission_id" payload
    decision_id ← text_at "decision_id" payload
    report_id ← text_at "report_id" payload
    report_revision ← int_at "report_revision" payload
    accepted_merge_commit ← text_at "accepted_merge_commit" payload
    ci_subject_head ← text_at "ci_subject_head" payload
    ci_attestation_id ← text_at "ci_attestation_id" payload
    workflow_id ← text_at "workflow_id" payload
    check_identity ← text_at "check_identity" payload
    workflow_run_id ← optional_at "workflow_run_id" payload
    check_run_id ← optional_at "check_run_id" payload
    artifact_id ← optional_at "artifact_id" payload
    task_digest ← text_at "task_digest" payload
    submission_digest ← text_at "submission_digest" payload
    decision_digest ← text_at "decision_digest" payload
    report_digest ← text_at "report_digest" payload
    target ← target_from target
    ci_projection ← projection_at (lookup_field "ci_projection" payload)
    renderer_id ← text_at "renderer_id" payload
    renderer_version ← int_at "renderer_version" payload
    payload_digest ← text_at "payload_digest" payload
    renderer_payload ← text_at "renderer_payload" payload
    marker ← text_at "marker" payload
    transport_body ← text_at "transport_body" payload
    ok (record {
      event_id = event_id;
      agent_id = agent_id;
      project_id = project_id;
      task_id = task_id;
      session_id = session_id;
      submission_id = submission_id;
      decision_id = decision_id;
      report_id = report_id;
      report_revision = report_revision;
      accepted_merge_commit = accepted_merge_commit;
      ci_subject_head = ci_subject_head;
      ci_attestation_id = ci_attestation_id;
      workflow_id = workflow_id;
      check_identity = check_identity;
      workflow_run_id = workflow_run_id;
      check_run_id = check_run_id;
      artifact_id = artifact_id;
      task_digest = task_digest;
      submission_digest = submission_digest;
      decision_digest = decision_digest;
      report_digest = report_digest;
      target = target;
      ci_projection = ci_projection;
      renderer_id = renderer_id;
      renderer_version = renderer_version;
      payload_digest = payload_digest;
      renderer_payload = platform.utf8 renderer_payload;
      marker = marker;
      transport_body = platform.utf8 transport_body;
    })

  -- `linear_event_from_payload`
  unfoldable pub linear_event_from_payload : Fields → Result LinearAcceptedResultEvent
  unfolding has_exactly lookup_field
  linear_event_from_payload payload =
      if not (has_exactly payload event_keys) || not (is_one (lookup_field "version" payload))
      then err linear_delivery_event_invalid
      else if not (
          github_ids_shaped (lookup_field "workflow_run_id" payload)
            (lookup_field "check_run_id" payload) (lookup_field "artifact_id" payload))
      then err linear_delivery_event_invalid
      else and_then (or_invalid (target_fields (lookup_field "target" payload))) λ target.
        if not (has_exactly target target_keys)
        then err linear_delivery_event_invalid
        else event_fields payload target
