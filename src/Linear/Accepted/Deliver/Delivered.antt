-- ===== src/Linear/Accepted/Deliver/Delivered.antt =====
-- What the outcome of an attempt to deliver an accepted result says (`deliver` of
-- src/researchctl/services/linear_delivery.py).
use research_agent_ops.Base.{
  codes, String, ◌≡◌, refl, ◌∙◌, sym, ap, Option, none, some, [], ◌∷◌, ◌⊎◌, inl, inr, string_eq,
  eq_iff, arith,
}
use research_agent_ops.Errors.{Code, Result, ok, err, value_error}
use research_agent_ops.Exec.{pure, lift, raise_if}
use research_agent_ops.Exec.Ensures.{bind-result}
use research_agent_ops.Actor.{ActorContext, require_role, trusted_automation}
use research_agent_ops.Store.Schema.{SourceMarker}
use research_agent_ops.Store.Checks.{is_blank}
use research_agent_ops.Linear.Envelope.{strip_linear_transport_envelope, stripped_body}
use research_agent_ops.Linear.Remote.{
  Platform, LinearTargetObservation, LinearCommentObservation, Response, answered, unavailable,
  DeliveryPort, first_error-none, canonical_hex,
}
use research_agent_ops.Linear.Comments.{own_comment, own_same}
use research_agent_ops.Linear.Accepted.{LinearAcceptedResultEvent, validate_event}
use research_agent_ops.Linear.Accepted.Sound.{strips_into-ok, validate_event-none}
use research_agent_ops.Linear.Accepted.Target.{validate_remote_target}
use research_agent_ops.Linear.Accepted.Deliver.{
  created_checked, observed_checked, after_create, project_comment, after_observe, after_target,
  after_preflight, after_validation, deliver, validate_comment, comment_checks,
}
use research_agent_ops.Linear.Accepted.Outcome.{
  LinearDeliveryOutcome, LinearProjectionReceipt, DeliveryState, delivered, retryable, dead_letter,
  delivered_outcome, receipt_of, receipt_outcome, receipt_material, source_marker_of,
}

module _ (platform : Platform) where
  -- A comment that passes the check is the author's, on the target's issue, and strips to the payload.
  validate_comment-none :
      (e : LinearAcceptedResultEvent) (c : LinearCommentObservation) (app : String)
      → validate_comment platform e c app ≡ none
      → (c.author_app_id ≡ app)
        × (c.issue_id ≡ e.target.issue_id)
        × (strip_linear_transport_envelope c.body (codes e.marker) ≡ ok e.renderer_payload)
  unfolding validate_comment
  validate_comment-none e c app h =
      let passed = first_error-none (comment_checks platform e c app) h in
      (
        (eq_iff c.author_app_id app).0 (ground (arith, passed.0)),
        (eq_iff c.issue_id e.target.issue_id).0 (ground (arith, passed.1.0)),
        strips_into-ok _ e.renderer_payload (ground (arith, passed.1.1.1.1.1.0)),
      )

  module _ {W : Type 0} (port : DeliveryPort W) (e : LinearAcceptedResultEvent) (app : String) where
    -- The port has answered with a comment.
    abbrev pub Shows : LinearCommentObservation → Type 0
    Shows c =
        (w : W) × (((port.observe_comment e.target.issue_id e.marker app none w).0
            ≡ ok (answered (some c)))
          ⊎ ((port.create_comment e.target.issue_id e.transport_body none w).0 ≡ ok (answered c)))

    -- What an outcome with its receipt says of the state that it reports.
    abbrev pub IsHonest : DeliveryState → Option LinearProjectionReceipt → Type 0
    IsHonest delivered receipt =
        (r : LinearProjectionReceipt) × (c : LinearCommentObservation) × (receipt ≡ some r)
        × (r.event ≡ e)
        × (r.comment_id ≡ c.comment_id)
        × Shows c
        × (c.author_app_id ≡ app)
        × (c.issue_id ≡ e.target.issue_id)
        × (c.body ≡ e.transport_body)
    IsHonest retryable receipt = receipt ≡ none
    IsHonest dead_letter receipt = receipt ≡ none

    abbrev pub Honest : Result LinearDeliveryOutcome → Type 0
    Honest (err c) = Unit
    Honest (ok o) = IsHonest o.state o.receipt

    fail : (c : Code) → Honest (err c)
    fail c = tt

    module _
        (in_order : strip_linear_transport_envelope e.transport_body (codes e.marker)
          ≡ ok e.renderer_payload) where
      delivered_outcome-Honest :
          (c : LinearCommentObservation) (w : W)
          → Shows c
          → validate_comment platform e c app ≡ none
          → Honest (delivered_outcome platform e c w).0
      unfolding delivered_outcome
      delivered_outcome-Honest c w shown passed =
          let (author, issue, payload) = validate_comment-none e c app passed in
          let body =
            stripped_body c.body (codes e.marker) payload
            ∙ sym (stripped_body e.transport_body (codes e.marker) in_order) in
          let outcome = λ (hex : String) (source_marker : SourceMarker).
            receipt_outcome platform e (receipt_of platform e c hex source_marker) in
          bind-result Honest fail (lift (canonical_hex platform (receipt_material platform e c))) _
            w
            λ hex _.
              bind-result Honest fail
                (lift (
                  source_marker_of platform e.marker e.agent_id e.task_id e.session_id
                    (some e.report_id)))
                (λ source_marker. pure (outcome hex source_marker)) w
                λ source_marker _. (
                  receipt_of platform e c hex source_marker,
                  c,
                  refl,
                  refl,
                  refl,
                  shown,
                  author,
                  issue,
                  body,
                )

      -- The branches on a check, with the comment that it is about.
      observed_checked-Honest :
          (c : LinearCommentObservation) (reason : Option String) (w : W)
          → Shows c
          → validate_comment platform e c app ≡ reason
          → Honest (observed_checked platform e c reason w).0
      unfolding observed_checked
      observed_checked-Honest c none w shown passed = delivered_outcome-Honest c w shown passed
      observed_checked-Honest c (some reason) w shown passed = refl

      created_checked-Honest :
          (c : LinearCommentObservation) (reason : Option String) (w : W)
          → Shows c
          → validate_comment platform e c app ≡ reason
          → Honest (created_checked platform e c reason w).0
      unfolding created_checked
      created_checked-Honest c none w shown passed = delivered_outcome-Honest c w shown passed
      created_checked-Honest c (some reason) w shown passed = tt

      after_create-Honest :
          (r : Response LinearCommentObservation) (u w : W)
          → (port.create_comment e.target.issue_id e.transport_body none w).0 ≡ ok r
          → Honest (after_create platform e app r u).0
      unfolding after_create created_checked
      after_create-Honest unavailable u w answer = refl
      after_create-Honest (answered c) u w answer =
          created_checked-Honest c (validate_comment platform e c app) u (w, inr answer) refl

      project_comment-Honest :
          (found : Option LinearCommentObservation) (w : W)
          → ((c : LinearCommentObservation) → found ≡ some c → Shows c)
          → Honest (project_comment platform port e app found w).0
      unfolding project_comment
      project_comment-Honest (some c) w shown =
          observed_checked-Honest c (validate_comment platform e c app) w (shown c refl) refl
      project_comment-Honest none w shown =
          bind-result Honest fail (port.create_comment e.target.issue_id e.transport_body none)
            (after_create platform e app) w λ created answer. after_create-Honest created _ w answer

      after_observe-Honest :
          (r : Response (Option LinearCommentObservation)) (u w : W)
          → (port.observe_comment e.target.issue_id e.marker app none w).0 ≡ ok r
          → Honest (after_observe platform port e app r u).0
      unfolding after_observe
      after_observe-Honest unavailable u w answer = refl
      after_observe-Honest (answered none) u w answer =
          project_comment-Honest none u λ c missing. cc
      after_observe-Honest (answered (some c)) u w answer =
          project_comment-Honest (own_comment app (some c)) u
            λ own is_own. (w, inl (answer ∙ ap (λ x. ok (answered x)) (own_same app c own is_own)))

      after_target-Honest :
          (code : Option String) (w : W) → Honest (after_target platform port e app code w).0
      unfolding after_target
      after_target-Honest (some code) w = refl
      after_target-Honest none w =
          bind-result Honest fail (port.observe_comment e.target.issue_id e.marker app none)
            (after_observe platform port e app) w
            λ found answer. after_observe-Honest found _ w answer

      after_preflight-Honest :
          (r : Response (Option LinearTargetObservation)) (w : W)
          → Honest (after_preflight platform port e app r w).0
      unfolding after_preflight
      after_preflight-Honest unavailable w = refl
      after_preflight-Honest (answered target) w =
          after_target-Honest (validate_remote_target e.target target) w

    after_validation-Honest :
        (code : Option String) (w : W)
        → validate_event platform e ≡ ok code
        → Honest (after_validation platform port e app code w).0
    unfolding after_validation
    after_validation-Honest (some code) w checked = refl
    after_validation-Honest none w checked =
        bind-result Honest fail (port.preflight_target e.target)
          (after_preflight platform port e app) w
          λ target _. after_preflight-Honest (validate_event-none platform e checked) target _

    -- An attempt that returns `delivered` returns a receipt of its event, for a comment that the port
    -- has answered with, of the app, on the target's issue, and with the event's transport body as its
    -- body; one that returns another state returns no receipt.
    pub deliver-Honest :
        (actor : ActorContext) (w : W) → Honest (deliver platform port actor e app w).0
    unfolding deliver
    deliver-Honest actor w =
        bind-result Honest fail (lift (require_role actor (trusted_automation ∷ []))) _ w λ _ _.
          bind-result Honest fail (raise_if (is_blank app) value_error) _ w λ _ _.
            bind-result Honest fail (lift (validate_event platform e))
              (after_validation platform port e app) _
              λ code checked. after_validation-Honest code _ checked
