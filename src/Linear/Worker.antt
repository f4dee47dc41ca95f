-- ===== src/Linear/Worker.antt =====
-- The worker that delivers to Linear (`LinearTransportWorker` of
-- src/researchctl/services/linear_worker.py, `linear_receipt_payload` of
-- src/researchctl/services/linear_delivery.py). Its state is the runtime store with the remote world.
mod Receipt
pub mod Reports
pub mod Settles
mod Fixtures
mod Samples
use research_agent_ops.Base.{
  ℕ, String, Bool, true, false, not, Option, none, some, List, [], ◌∷◌, ◌==◌, string_eq,
  if◌then◌else◌,
}
use research_agent_ops.Errors.{
  Code, Result, ok, err, authorization_denied, runtime_store_corrupt, linear_delivery_event_invalid,
  linear_session_reply_event_invalid,
}
use research_agent_ops.Json.{Json, Fields, int, string, object, field, end, fields}
use research_agent_ops.Exec.{Exec, pure, raise, lift, ◌>>=◌, ◌>>◌, raise_if}
use research_agent_ops.Exec.Pair.{at_left, at_right}
use research_agent_ops.Actor.{ActorContext, require_role, trusted_automation}
use research_agent_ops.Store.Schema.{Store, Datetime, OutboxRow, SourceMarker}
use research_agent_ops.Store.Replies.{reply_topic}
use research_agent_ops.Store.Delivery.{
  accepted_topic, DeliveryClaim, claim_linear_delivery, finish_linear_delivery,
}
use research_agent_ops.Linear.Remote.{
  Platform, LinearCommentObservation, DeliveryPort, optional_json, bytes_digest,
}
use research_agent_ops.Linear.Accepted.{LinearAcceptedResultEvent}
use research_agent_ops.Linear.Accepted.Payload.Reading.{linear_event_from_payload}
use research_agent_ops.Linear.Accepted.Deliver.{deliver}
use research_agent_ops.Linear.Accepted.Outcome.{
  DeliveryState, delivered, retryable, dead_letter, LinearDeliveryOutcome, LinearProjectionReceipt,
}
use research_agent_ops.Linear.Reply.{LinearSessionReplyEvent, build_linear_session_reply_event}
use research_agent_ops.Linear.Reply.Project.{Projection, project_reply, reply_receipt_id}
use research_agent_ops.Linear.Worker.Receipt.{receipt_payload, reply_receipt}

-- A LinearWorkerResult; `none` is the state `idle`.
pub record LinearWorkerResult : Type 0 where
  pub state : Option DeliveryState
  pub topic : Option String
  pub outbox_id : Option String
  pub error_code : Option String
  pub receipt_id : Option String

abbrev pub idle : LinearWorkerResult
idle = record { state = none; topic = none; outbox_id = none; error_code = none; receipt_id = none }

-- What a delivery hands to `_finish`; a receipt comes with its ID.
pub record Report : Type 0 where
  pub state : DeliveryState
  pub error_code : Option String
  pub receipt : Option (String × Fields)

abbrev pub state_text : DeliveryState → String
state_text delivered = "delivered"
state_text retryable = "retryable"
state_text dead_letter = "dead_letter"

abbrev pub refusal : String → Report
refusal code = record { state = dead_letter; error_code = some code; receipt = none }

-- The code of an RCPError that ends a delivery as a dead letter.
abbrev pub rcp_code : Code → Option String
rcp_code linear_delivery_event_invalid = some "linear_delivery_event_invalid"
rcp_code linear_session_reply_event_invalid = some "linear_session_reply_event_invalid"
rcp_code _ = none

-- The outbox row's payload, which is a dict.
abbrev pub payload_of : Json → Result Fields
payload_of (object fs) = ok fs
payload_of _ = err runtime_store_corrupt

abbrev pub receipt_text : Option (String × Fields) → Option String
receipt_text none = none
receipt_text (some (id, fs)) = some id

abbrev pub receipt_fields : Option (String × Fields) → Option Fields
receipt_fields none = none
receipt_fields (some (id, fs)) = some fs

abbrev pub refuse : {S : Type 0} → Code → Option String → Exec S Report
refuse c none = raise c
refuse c (some code) = pure (refusal code)

-- `except RCPError`: the delivery of an event, or the refusal of a payload that is none.
abbrev pub or_refuse : {S E : Type 0} → Result E → (E → Exec S Report) → Exec S Report
or_refuse (ok e) f = f e
or_refuse (err c) f = refuse c (rcp_code c)

module _ (platform : Platform) (credential_identity app_id : String) where
  abbrev pub accepted_receipt : Option LinearProjectionReceipt → Option (String × Fields)
  accepted_receipt none = none
  accepted_receipt (some r) = some (r.receipt_id, receipt_payload credential_identity r)

  abbrev pub report_of : LinearDeliveryOutcome → Report
  report_of o = record {
    state = o.state;
    error_code = o.error_code;
    receipt = accepted_receipt o.receipt;
  }

  module _ {W : Type 0} (port : DeliveryPort W) where
    -- `_deliver_accepted` ahead of `_finish`
    unfoldable pub accepted_report : ActorContext → OutboxRow → Exec W Report
    unfolding receipt_payload
    accepted_report actor r = do
      payload ← lift (payload_of r.payload_json.value)
      or_refuse (linear_event_from_payload platform payload)
          λ e. deliver platform port actor e app_id >>= λ outcome. pure (report_of outcome)

    -- The branch on the comment of a reply.
    pub comment_report :
        LinearSessionReplyEvent
        → DeliveryState
        → Option String
        → Option LinearCommentObservation
        → Exec W Report
    unfolding reply_receipt
    comment_report e state error_code none =
        pure (record { state = state; error_code = error_code; receipt = none })
    comment_report e state error_code (some c) = do
      receipt_id ← lift (reply_receipt_id platform e c)
      pure (record {
        state = state;
        error_code = error_code;
        receipt = some (receipt_id, reply_receipt platform credential_identity e c receipt_id);
      })

    -- `_deliver_reply` ahead of `_finish`
    unfoldable pub reply_report : OutboxRow → Exec W Report
    unfolding comment_report
    reply_report r = do
      payload ← lift (payload_of r.payload_json.value)
      or_refuse (build_linear_session_reply_event platform r.project_id r.outbox_id payload) λ e.
          project_reply platform port e app_id >>= λ p.
          comment_report e p.state p.error_code p.comment

    -- The branch on the topic.
    unfoldable pub topic_report : ActorContext → OutboxRow → Exec W Report
    unfolding accepted_report reply_report
    topic_report actor r =
        if r.topic == accepted_topic
        then accepted_report actor r
        else if r.topic == reply_topic
        then reply_report r
        else pure (refusal "linear_delivery_topic_invalid")

    -- `SessionNotificationSourceMarker.model_validate` of the store, and the time that the clock shows
    -- at the end.
    module _ (marker_text : Json → Option String) (finished_at : Datetime) where
      -- `_finish`
      pub finish : DeliveryClaim → Report → Exec (Store × W) LinearWorkerResult
      finish claim report = do
        stored ← at_left (
            finish_linear_delivery marker_text claim.claim_id (state_text report.state)
              report.error_code (receipt_fields report.receipt) finished_at)
        pure (record {
          state = some report.state;
          topic = some claim.outbox.topic;
          outbox_id = some stored.outbox_id;
          error_code = report.error_code;
          receipt_id = receipt_text report.receipt;
        })

      -- The branch on the claim.
      pub deliver_claim : ActorContext → Option DeliveryClaim → Exec (Store × W) LinearWorkerResult
      unfolding finish topic_report
      deliver_claim actor none = pure idle
      deliver_claim actor (some claim) = do
        report ← at_right (topic_report actor claim.outbox)
        finish claim report

      -- `run_once`
      unfoldable pub run_once :
          ActorContext → String → String → Datetime → ℕ → Exec (Store × W) LinearWorkerResult
      unfolding deliver_claim require_role
      run_once actor project_id claim_id claimed_at lease_seconds = do
        lift (require_role actor (trusted_automation ∷ []))
        raise_if (not (actor.actor_id == credential_identity)) authorization_denied
        claim ← at_left (claim_linear_delivery project_id claim_id claimed_at lease_seconds)
        deliver_claim actor claim
