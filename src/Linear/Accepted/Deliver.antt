-- ===== src/Linear/Accepted/Deliver.antt =====
-- One attempt to deliver an accepted result (`LinearAcceptedResultDeliveryService.deliver` of
-- src/researchctl/services/linear_delivery.py) over a port to Linear.
pub mod Once
pub mod Delivered
use Prim.Native.String.{◌++◌ as ◌<>◌}
use research_agent_ops.Base.{
  codes, ℕ, String, Bool, true, false, ◌&&◌, ◌||◌, not, Option, none, some, List, [], ◌∷◌, ◌==◌,
  string_eq, if◌then◌else◌, Bytes, bytes_eq,
}
use research_agent_ops.Errors.{
  Result, ok, err, value_error, authorization_denied, linear_delivery_port_contract_invalid,
}
use research_agent_ops.Json.{Json, null, string, int, object, field, end, fields, Fields}
use research_agent_ops.Actor.{ActorContext, require_role, trusted_automation}
use research_agent_ops.Exec.{Exec, pure, raise, lift, ◌>>=◌, ◌>>◌, raise_if}
use research_agent_ops.Store.Schema.{SourceMarker}
use research_agent_ops.Store.Checks.{is_blank}
use research_agent_ops.Linear.Envelope.{strip_linear_transport_envelope}
use research_agent_ops.Linear.Remote.{
  Platform, LinearTarget, LinearTargetObservation, LinearCommentObservation, Response, answered,
  unavailable, DeliveryPort, is_linear_uuid, first_error, canonical_hex, bytes_digest,
  optional_json,
}
use research_agent_ops.Linear.Comments.{own_comment}
use research_agent_ops.Linear.Accepted.{
  LinearAcceptedResultEvent, validate_event, strips, strips_into,
}
use research_agent_ops.Linear.Accepted.Target.{validate_remote_target}
use research_agent_ops.Linear.Accepted.Outcome.{
  DeliveryState, delivered, retryable, dead_letter, RetryStage, preflight, observe, create,
  LinearProjectionReceipt, LinearDeliveryOutcome, dead_letter_outcome, retryable_outcome,
  source_marker_of, receipt_of, receipt_outcome, delivered_outcome,
}

module _ (platform : Platform) where
  abbrev pub stripped_digest : Result Bytes → String
  stripped_digest (ok payload) = bytes_digest platform payload
  stripped_digest (err c) = ""

  abbrev pub comment_checks :
      LinearAcceptedResultEvent → LinearCommentObservation → String → List (Bool × String)
  comment_checks e c app =
      let stripped = strip_linear_transport_envelope c.body (codes e.marker) in
      (not (c.author_app_id == app), "linear_comment_author_mismatch")
      ∷ (not (c.issue_id == e.target.issue_id), "linear_comment_target_mismatch")
      ∷ (not (is_linear_uuid c.comment_id), "linear_comment_identity_invalid")
      ∷ (not (is_linear_uuid c.thread_id), "linear_comment_identity_invalid")
      ∷ (not (strips stripped), "linear_comment_marker_mismatch")
      ∷ (
        not (strips_into stripped e.renderer_payload)
            || not (stripped_digest stripped == e.payload_digest),
        "linear_comment_payload_mismatch",
      )
      ∷ []

  -- `_validate_comment`
  unfoldable pub validate_comment :
      LinearAcceptedResultEvent → LinearCommentObservation → String → Option String
  unfolding first_error is_linear_uuid strip_linear_transport_envelope bytes_eq
  validate_comment e c app = first_error (comment_checks e c app)

  module _ {W : Type 0} where
    -- The branch on the check of a comment that was created.
    pub created_checked :
        LinearAcceptedResultEvent
        → LinearCommentObservation
        → Option String
        → Exec W LinearDeliveryOutcome
    unfolding delivered_outcome
    created_checked e c none = delivered_outcome platform e c
    created_checked e c (some reason) = raise linear_delivery_port_contract_invalid

    -- The branch on the check of a comment that was there.
    pub observed_checked :
        LinearAcceptedResultEvent
        → LinearCommentObservation
        → Option String
        → Exec W LinearDeliveryOutcome
    unfolding delivered_outcome
    observed_checked e c none = delivered_outcome platform e c
    observed_checked e c (some reason) = pure (dead_letter_outcome e reason)

    pub after_create :
        LinearAcceptedResultEvent
        → String
        → Response LinearCommentObservation
        → Exec W LinearDeliveryOutcome
    unfolding created_checked validate_comment
    after_create e app unavailable = pure (retryable_outcome e create)
    after_create e app (answered c) = created_checked e c (validate_comment e c app)

  module _ {W : Type 0} (port : DeliveryPort W) where
    -- The branch on the comment that carries the marker.
    pub project_comment :
        LinearAcceptedResultEvent
        → String
        → Option LinearCommentObservation
        → Exec W LinearDeliveryOutcome
    unfolding observed_checked after_create validate_comment
    project_comment e app (some c) = observed_checked e c (validate_comment e c app)
    project_comment e app none = do
      created ← port.create_comment e.target.issue_id e.transport_body none
      after_create e app created

    pub after_observe :
        LinearAcceptedResultEvent
        → String
        → Response (Option LinearCommentObservation)
        → Exec W LinearDeliveryOutcome
    unfolding project_comment
    after_observe e app unavailable = pure (retryable_outcome e observe)
    after_observe e app (answered found) = project_comment e app (own_comment app found)

    -- The branch on the check of the target.
    pub after_target :
        LinearAcceptedResultEvent → String → Option String → Exec W LinearDeliveryOutcome
    unfolding after_observe
    after_target e app (some code) = pure (dead_letter_outcome e code)
    after_target e app none = do
      found ← port.observe_comment e.target.issue_id e.marker app none
      after_observe e app found

    pub after_preflight :
        LinearAcceptedResultEvent
        → String
        → Response (Option LinearTargetObservation)
        → Exec W LinearDeliveryOutcome
    unfolding after_target validate_remote_target
    after_preflight e app unavailable = pure (retryable_outcome e preflight)
    after_preflight e app (answered target) =
        after_target e app (validate_remote_target e.target target)

    -- The branch on the check of the event.
    pub after_validation :
        LinearAcceptedResultEvent → String → Option String → Exec W LinearDeliveryOutcome
    unfolding after_preflight
    after_validation e app (some code) = pure (dead_letter_outcome e code)
    after_validation e app none = do
      target ← port.preflight_target e.target
      after_preflight e app target

    -- `deliver`
    unfoldable pub deliver :
        ActorContext → LinearAcceptedResultEvent → String → Exec W LinearDeliveryOutcome
    unfolding after_validation validate_event require_role is_blank
    deliver actor e app = do
      lift (require_role actor (trusted_automation ∷ []))
      raise_if (is_blank app) value_error
      local_error ← lift (validate_event platform e)
      after_validation e app local_error
