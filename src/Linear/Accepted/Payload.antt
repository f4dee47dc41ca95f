-- ===== src/Linear/Accepted/Payload.antt =====
-- The stored form of an event (`linear_event_payload` of
-- src/researchctl/services/linear_delivery.py).
pub mod Reading
pub mod RoundTrip
use research_agent_ops.Base.{
  ℕ, String, Bool, true, false, ◌&&◌, ◌||◌, not, Option, none, some, List, [], ◌∷◌, any, all, ◌==◌,
  string_eq, nat_eq, if◌then◌else◌,
}
use research_agent_ops.Errors.{
  and_then, and_then as ◌>>=◌, Result, ok, err, linear_delivery_event_invalid,
}
use research_agent_ops.Json.{Json, Fields, null, bool, int, string, object, field, end, fields}
use research_agent_ops.Store.Delivery.Receipts.{lookup_field, has_fields}
use research_agent_ops.Linear.Remote.{
  Platform, LinearTarget, LinearProjectionConfigured, optional_json,
}
use research_agent_ops.Linear.Accepted.{LinearAcceptedResultEvent}

abbrev pub target_payload : LinearTarget → Fields
target_payload t = fields (
    ("workspace_id", string t.workspace_id)
    ∷ ("team_id", string t.team_id)
    ∷ ("project_id", optional_json t.project_id)
    ∷ ("issue_id", string t.issue_id)
    ∷ [])

-- `ci_projection.model_dump(mode="json")`
abbrev pub projection_json : LinearProjectionConfigured → Json
projection_json p = object (
    fields (
      ("state", string "configured")
      ∷ ("workspace_id", string p.workspace_id)
      ∷ ("team_id", string p.team_id)
      ∷ ("project_id", optional_json p.project_id)
      ∷ ("issue_id", string p.issue_id)
      ∷ ("renderer_id", string p.renderer_id)
      ∷ ("renderer_version", int p.renderer_version)
      ∷ ("payload_digest", string p.payload_digest)
      ∷ []))

module _ (platform : Platform) where
  -- `linear_event_payload`
  unfoldable pub linear_event_payload : LinearAcceptedResultEvent → Fields
  linear_event_payload e = fields (
      ("version", int 1)
      ∷ ("event_id", string e.event_id)
      ∷ ("agent_id", string e.agent_id)
      ∷ ("project_id", string e.project_id)
      ∷ ("task_id", string e.task_id)
      ∷ ("session_id", string e.session_id)
      ∷ ("submission_id", string e.submission_id)
      ∷ ("decision_id", string e.decision_id)
      ∷ ("report_id", string e.report_id)
      ∷ ("report_revision", int e.report_revision)
      ∷ ("accepted_merge_commit", string e.accepted_merge_commit)
      ∷ ("ci_subject_head", string e.ci_subject_head)
      ∷ ("ci_attestation_id", string e.ci_attestation_id)
      ∷ ("workflow_id", string e.workflow_id)
      ∷ ("check_identity", string e.check_identity)
      ∷ ("workflow_run_id", optional_json e.workflow_run_id)
      ∷ ("check_run_id", optional_json e.check_run_id)
      ∷ ("artifact_id", optional_json e.artifact_id)
      ∷ ("task_digest", string e.task_digest)
      ∷ ("submission_digest", string e.submission_digest)
      ∷ ("decision_digest", string e.decision_digest)
      ∷ ("report_digest", string e.report_digest)
      ∷ ("target", object (target_payload e.target))
      ∷ ("ci_projection", projection_json e.ci_projection)
      ∷ ("renderer_id", string e.renderer_id)
      ∷ ("renderer_version", int e.renderer_version)
      ∷ ("payload_digest", string e.payload_digest)
      ∷ ("renderer_payload", string (platform.decode e.renderer_payload))
      ∷ ("marker", string e.marker)
      ∷ ("transport_body", string (platform.decode e.transport_body))
      ∷ [])
