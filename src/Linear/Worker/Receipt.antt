-- ===== src/Linear/Worker/Receipt.antt =====
-- The receipts that the worker hands to the store (`linear_receipt_payload` of
-- src/researchctl/services/linear_delivery.py, `_deliver_reply` of
-- src/researchctl/services/linear_worker.py).
use research_agent_ops.Base.{String, [], ◌∷◌, string_eq}
use research_agent_ops.Json.{Json, Fields, int, string, object, fields}
use research_agent_ops.Store.Schema.{SourceMarker}
use research_agent_ops.Linear.Remote.{
  Platform, LinearCommentObservation, optional_json, bytes_digest,
}
use research_agent_ops.Linear.Accepted.Outcome.{LinearProjectionReceipt}
use research_agent_ops.Linear.Reply.{LinearSessionReplyEvent}

-- A LinearWorkerResult; `none` is the state `idle`.
-- `source_marker.model_dump(mode="json")`
abbrev marker_json : SourceMarker → Json
marker_json m = object (
    fields (
      ("agent_id", string m.agent_id)
      ∷ ("task_id", string m.task_id)
      ∷ ("session_id", string m.session_id)
      ∷ ("report_id", optional_json m.report_id)
      ∷ ("marker_digest", string m.marker_digest)
      ∷ []))

-- `linear_receipt_payload`, with the credential's identity
unfoldable pub receipt_payload : String → LinearProjectionReceipt → Fields
receipt_payload credential r = fields (
    ("version", int 1)
    ∷ ("receipt_id", string r.receipt_id)
    ∷ ("event_id", string r.event.event_id)
    ∷ ("project_id", string r.event.project_id)
    ∷ ("task_id", string r.event.task_id)
    ∷ ("session_id", string r.event.session_id)
    ∷ ("submission_id", string r.event.submission_id)
    ∷ ("report_id", string r.event.report_id)
    ∷ ("report_revision", int r.event.report_revision)
    ∷ ("accepted_merge_commit", string r.event.accepted_merge_commit)
    ∷ ("ci_subject_head", string r.event.ci_subject_head)
    ∷ ("ci_attestation_id", string r.event.ci_attestation_id)
    ∷ ("workflow_id", string r.event.workflow_id)
    ∷ ("check_identity", string r.event.check_identity)
    ∷ ("workflow_run_id", optional_json r.event.workflow_run_id)
    ∷ ("check_run_id", optional_json r.event.check_run_id)
    ∷ ("artifact_id", optional_json r.event.artifact_id)
    ∷ ("task_digest", string r.event.task_digest)
    ∷ ("submission_digest", string r.event.submission_digest)
    ∷ ("decision_digest", string r.event.decision_digest)
    ∷ ("report_digest", string r.event.report_digest)
    ∷ ("workspace_id", string r.event.target.workspace_id)
    ∷ ("team_id", string r.event.target.team_id)
    ∷ ("linear_project_id", optional_json r.event.target.project_id)
    ∷ ("issue_id", string r.event.target.issue_id)
    ∷ ("comment_id", string r.comment_id)
    ∷ ("thread_id", string r.thread_id)
    ∷ ("renderer_id", string r.event.renderer_id)
    ∷ ("renderer_version", int r.event.renderer_version)
    ∷ ("payload_digest", string r.event.payload_digest)
    ∷ ("transport_digest", string r.transport_digest)
    ∷ ("marker", string r.event.marker)
    ∷ ("source_marker", marker_json r.source_marker)
    ∷ ("credential_identity", string credential)
    ∷ [])

module _ (platform : Platform) (credential_identity : String) where
  -- `receipt` of `_deliver_reply`
  unfoldable pub reply_receipt :
      LinearSessionReplyEvent → LinearCommentObservation → String → Fields
  reply_receipt e c receipt_id =
      let credential = credential_identity in
      fields (
        ("version", int 1)
        ∷ ("receipt_id", string receipt_id)
        ∷ ("credential_identity", string credential)
        ∷ ("event_id", string e.event_id)
        ∷ ("task_id", string e.task_id)
        ∷ ("session_id", string e.session_id)
        ∷ ("workspace_id", string e.target.workspace_id)
        ∷ ("issue_id", string e.target.issue_id)
        ∷ ("thread_id", string e.target.thread_id)
        ∷ ("comment_id", string c.comment_id)
        ∷ ("payload_digest", string e.payload_digest)
        ∷ ("transport_digest", string (bytes_digest platform e.transport_body))
        ∷ ("marker", string e.marker)
        ∷ ("source_marker", marker_json e.source_marker)
        ∷ [])
