-- ===== src/Linear/Accepted/Outcome.antt =====
-- How an attempt to deliver an accepted result ends (`LinearDeliveryOutcome`,
-- `LinearProjectionReceipt`, `_dead_letter`, `_retryable`, `_delivered` of
-- src/researchctl/services/linear_delivery.py).
use Prim.Native.String.{◌++◌ as ◌<>◌}
use research_agent_ops.Base.{String, Option, none, some, [], ◌∷◌, string_eq, if◌then◌else◌}
use research_agent_ops.Errors.{Result, ok, err, value_error}
use research_agent_ops.Json.{Json, string, object, fields}
use research_agent_ops.Exec.{Exec, pure, lift, ◌>>=◌}
use research_agent_ops.Store.Schema.{SourceMarker}
use research_agent_ops.Linear.Remote.{
  Platform, LinearCommentObservation, canonical_hex, bytes_digest, optional_json,
}
use research_agent_ops.Linear.Accepted.{LinearAcceptedResultEvent}

pub data DeliveryState : Type 0 where
  delivered retryable dead_letter : DeliveryState

pub data RetryStage : Type 0 where
  preflight observe create : RetryStage

pub record LinearProjectionReceipt : Type 0 where
  pub receipt_id : String
  pub event : LinearAcceptedResultEvent
  pub comment_id : String
  pub thread_id : String
  pub transport_digest : String
  pub source_marker : SourceMarker

pub record LinearDeliveryOutcome : Type 0 where
  pub state : DeliveryState
  pub event_id : String
  pub receipt : Option LinearProjectionReceipt
  pub error_code : Option String
  pub retry_stage : Option RetryStage

abbrev pub dead_letter_outcome : LinearAcceptedResultEvent → String → LinearDeliveryOutcome
dead_letter_outcome e code = record {
  state = dead_letter;
  event_id = e.event_id;
  receipt = none;
  error_code = some code;
  retry_stage = none;
}

abbrev pub retryable_outcome : LinearAcceptedResultEvent → RetryStage → LinearDeliveryOutcome
retryable_outcome e stage = record {
  state = retryable;
  event_id = e.event_id;
  receipt = none;
  error_code = some "linear_delivery_unavailable";
  retry_stage = some stage;
}

module _ (platform : Platform) where
  abbrev pub receipt_material : LinearAcceptedResultEvent → LinearCommentObservation → Json
  receipt_material e c = object (
      fields (
        ("kind", string "linear.projection-receipt.v1")
        ∷ ("event_id", string e.event_id)
        ∷ ("comment_id", string c.comment_id)
        ∷ ("author_app_id", string c.author_app_id)
        ∷ ("payload_digest", string e.payload_digest)
        ∷ ("marker", string e.marker)
        ∷ ("accepted_merge_commit", string e.accepted_merge_commit)
        ∷ ("ci_subject_head", string e.ci_subject_head)
        ∷ ("ci_attestation_id", string e.ci_attestation_id)
        ∷ ("workflow_run_id", optional_json e.workflow_run_id)
        ∷ ("check_run_id", optional_json e.check_run_id)
        ∷ ("artifact_id", optional_json e.artifact_id)
        ∷ []))

  abbrev pub marker_material : String → String → String → String → Option String → Json
  marker_material marker agent_id task_id session_id report_id = object (
      fields (
        ("marker", string marker)
        ∷ ("agent_id", string agent_id)
        ∷ ("task_id", string task_id)
        ∷ ("session_id", string session_id)
        ∷ ("report_id", optional_json report_id)
        ∷ []))

  abbrev validated : SourceMarker → Result SourceMarker
  validated marker = if platform.valid_marker marker then ok marker else err value_error

  -- The SessionNotificationSourceMarker of a delivery.
  unfoldable pub source_marker_of :
      String → String → String → String → Option String → Result SourceMarker
  unfolding canonical_hex
  source_marker_of marker agent_id task_id session_id report_id =
      elim (canonical_hex platform (marker_material marker agent_id task_id session_id report_id)) [
        | err c ↦ err c
        | ok hex ↦ validated (record {
          agent_id = agent_id;
          task_id = task_id;
          session_id = session_id;
          report_id = report_id;
          marker_digest = "sha256:" <> hex;
        })
      ]

  -- The fields of a receipt that are its event's are read from the event.
  abbrev pub receipt_of :
      LinearAcceptedResultEvent
      → LinearCommentObservation
      → String
      → SourceMarker
      → LinearProjectionReceipt
  receipt_of e c hex source_marker = record {
    receipt_id = "linear-receipt-" <> hex;
    event = e;
    comment_id = c.comment_id;
    thread_id = c.thread_id;
    transport_digest = bytes_digest platform e.transport_body;
    source_marker = source_marker;
  }

  abbrev pub receipt_outcome :
      LinearAcceptedResultEvent → LinearProjectionReceipt → LinearDeliveryOutcome
  receipt_outcome e receipt = record {
    state = delivered;
    event_id = e.event_id;
    receipt = some receipt;
    error_code = none;
    retry_stage = none;
  }

  module _ {W : Type 0} where
    -- `_delivered`
    unfoldable pub delivered_outcome :
        LinearAcceptedResultEvent → LinearCommentObservation → Exec W LinearDeliveryOutcome
    unfolding canonical_hex source_marker_of
    delivered_outcome e c = do
      hex ← lift (canonical_hex platform (receipt_material e c))
      source_marker ←
          lift (source_marker_of e.marker e.agent_id e.task_id e.session_id (some e.report_id))
      pure (receipt_outcome e (receipt_of e c hex source_marker))
