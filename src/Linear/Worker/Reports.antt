-- ===== src/Linear/Worker/Reports.antt =====
-- What the worker hands to `finish_linear_delivery` (`_deliver_accepted`, `_deliver_reply` of
-- src/researchctl/services/linear_worker.py).
use research_agent_ops.Base.{
  String, ◌≡◌, refl, true, false, Option, none, some, ◌==◌, string_eq, if◌then◌else◌, Bool-cases,
  inl, inr,
}
use research_agent_ops.Errors.{Code, Result, ok, err}
use research_agent_ops.Exec.{Exec, pure, lift, continue}
use research_agent_ops.Exec.Ensures.{bind-result}
use research_agent_ops.Actor.{ActorContext}
use research_agent_ops.Store.Schema.{OutboxRow}
use research_agent_ops.Store.Replies.{reply_topic}
use research_agent_ops.Store.Delivery.{accepted_topic, is_outcome, differ, has_receipt}
use research_agent_ops.Linear.Remote.{Platform, LinearCommentObservation, DeliveryPort}
use research_agent_ops.Linear.Accepted.{LinearAcceptedResultEvent}
use research_agent_ops.Linear.Accepted.Payload.Reading.{linear_event_from_payload}
use research_agent_ops.Linear.Accepted.Deliver.{deliver}
use research_agent_ops.Linear.Accepted.Outcome.{
  DeliveryState, delivered, retryable, dead_letter, LinearDeliveryOutcome, LinearProjectionReceipt,
  RetryStage,
}
use research_agent_ops.Linear.Accepted.Deliver.Delivered
use research_agent_ops.Linear.Reply.{LinearSessionReplyEvent, build_linear_session_reply_event}
use research_agent_ops.Linear.Reply.Project.{Projection, project_reply, reply_receipt_id}
use research_agent_ops.Linear.Reply.Project.Delivered as Replied
use research_agent_ops.Linear.Worker.{
  Report, state_text, refusal, receipt_fields, report_of, or_refuse, refuse, rcp_code, payload_of,
  accepted_report, comment_report, reply_report, topic_report,
}

-- The two tests that `finish_linear_delivery` makes of a state and a receipt pass.
abbrev pub Passes : Result Report → Type 0
Passes (err c) = Unit
Passes (ok r) =
    (is_outcome (state_text r.state) ≡ true)
    × (differ (state_text r.state == "delivered") (has_receipt (receipt_fields r.receipt)) ≡ false)

fail : (c : Code) → Passes (err c)
fail c = tt

refuse-Passes : {S : Type 0} (c : Code) (code : Option String) (s : S) → Passes (refuse c code s).0
refuse-Passes c none s = tt
refuse-Passes c (some code) s = (refl, refl)

or_refuse-Passes :
    {S E : Type 0} (r : Result E) (f : E → Exec S Report) (s : S)
    → ((e : E) → r ≡ ok e → Passes (f e s).0)
    → Passes (or_refuse r f s).0
or_refuse-Passes (ok e) f s h = h e refl
or_refuse-Passes (err c) f s h = refuse-Passes c (rcp_code c) s

module _ (platform : Platform) (credential_identity app_id : String) {W : Type 0}
    (port : DeliveryPort W) where
  outcome-Passes :
      (e : LinearAcceptedResultEvent) (state : DeliveryState) (event_id : String)
      (receipt : Option LinearProjectionReceipt) (error_code : Option String)
      (stage : Option RetryStage)
      → Delivered.IsHonest platform port e app_id state receipt
      → Passes (
          ok (
            report_of platform credential_identity app_id (record {
              state = state;
              event_id = event_id;
              receipt = receipt;
              error_code = error_code;
              retry_stage = stage;
            })))
  outcome-Passes e delivered id receipt code stage given = rw given.2 (refl, refl)
  outcome-Passes e retryable id receipt code stage given = rw given (refl, refl)
  outcome-Passes e dead_letter id receipt code stage given = rw given (refl, refl)

  delivery-Passes :
      (e : LinearAcceptedResultEvent) (o : Result LinearDeliveryOutcome) (w : W)
      → Delivered.Honest platform port e app_id o
      → Passes
          (continue o (λ outcome. pure (report_of platform credential_identity app_id outcome)) w).0
  delivery-Passes e (err c) w h = tt
  delivery-Passes e (ok o) w h =
      outcome-Passes e o.state o.event_id o.receipt o.error_code o.retry_stage h

  accepted_report-Passes :
      (actor : ActorContext) (r : OutboxRow) (w : W)
      → Passes (accepted_report platform credential_identity app_id port actor r w).0
  unfolding accepted_report
  accepted_report-Passes actor r w =
      bind-result Passes fail (lift (payload_of r.payload_json.value)) _ w λ payload _.
        or_refuse-Passes (linear_event_from_payload platform payload) _ _ λ e _.
          delivery-Passes e (deliver platform port actor e app_id w).0 _
            (Delivered.deliver-Honest platform port e app_id actor w)

  comment_report-Passes :
      (e : LinearSessionReplyEvent) (state : DeliveryState) (code : Option String)
      (c : Option LinearCommentObservation) (w : W)
      → Replied.IsHonest platform port e app_id state c
      → Passes (comment_report platform credential_identity app_id port e state code c w).0
  unfolding comment_report
  comment_report-Passes e retryable code none w h = (refl, refl)
  comment_report-Passes e dead_letter code none w h = (refl, refl)
  comment_report-Passes e retryable code (some c) w h = cc
  comment_report-Passes e dead_letter code (some c) w h = cc
  comment_report-Passes e delivered code none w h = let absent = h.1 in cc
  comment_report-Passes e delivered code (some c) w h =
      bind-result Passes fail (lift (reply_receipt_id platform e c)) _ w λ id _. (refl, refl)

  projection-Passes :
      (e : LinearSessionReplyEvent) (p : Result Projection) (w : W)
      → Replied.Honest platform port e app_id p
      → Passes
          (continue p
            (λ q.
              comment_report platform credential_identity app_id port e q.state q.error_code
                q.comment)
            w).0
  projection-Passes e (err c) w h = tt
  projection-Passes e (ok p) w h = comment_report-Passes e p.state p.error_code p.comment w h

  reply_report-Passes :
      (r : OutboxRow) (w : W) → Passes (reply_report platform credential_identity app_id port r w).0
  unfolding reply_report
  reply_report-Passes r w =
      bind-result Passes fail (lift (payload_of r.payload_json.value)) _ w λ payload _.
        or_refuse-Passes
          (build_linear_session_reply_event platform r.project_id r.outbox_id payload) _ _
          λ e built. projection-Passes e (project_reply platform port e app_id w).0 _ (
            Replied.project_reply-Honest platform port r.project_id r.outbox_id app_id payload e w
              built)

  reply_or_invalid :
      (actor : ActorContext) (r : OutboxRow) (w : W)
      → Passes
          ((if r.topic == reply_topic
              then reply_report platform credential_identity app_id port r
              else pure (refusal "linear_delivery_topic_invalid"))
            w).0
  reply_or_invalid actor r w = elim (Bool-cases (r.topic == reply_topic)) [
    | inl e ↦ rw e (reply_report-Passes r w)
    | inr e ↦ rw e (refl, refl)
  ]

  -- Whatever Linear answers, the state and the receipt that the worker hands to
  -- `finish_linear_delivery` for a claimed row pass its tests: the state is one of its three, and there
  -- is a receipt just where the state is `delivered`.
  pub topic_report-Passes :
      (actor : ActorContext) (r : OutboxRow) (w : W)
      → Passes (topic_report platform credential_identity app_id port actor r w).0
  unfolding topic_report
  topic_report-Passes actor r w = elim (Bool-cases (r.topic == accepted_topic)) [
    | inl e ↦ rw e (accepted_report-Passes actor r w)
    | inr e ↦ rw e (reply_or_invalid actor r w)
  ]
