-- ===== src/Linear/Reply/Project/Delivered.antt =====
-- What an attempt to project a reply returns (`_project_reply` of
-- src/researchctl/services/linear_worker.py), for an event that
-- `build_linear_session_reply_event` has built.
use research_agent_ops.Base.{
  codes, String, ◌≡◌, refl, ◌∙◌, sym, ap, Option, none, some, ◌⊎◌, inl, inr, string_eq, eq_iff,
  arith,
}
use research_agent_ops.Errors.{Code, Result, ok, err}
use research_agent_ops.Json.{Fields}
use research_agent_ops.Exec.Ensures.{bind-result}
use research_agent_ops.Linear.Envelope.{strip_linear_transport_envelope, strip-add, stripped_body}
use research_agent_ops.Linear.Remote.{
  Platform, LinearReplyTargetObservation, LinearCommentObservation, Response, answered, unavailable,
  DeliveryPort, first_error-none,
}
use research_agent_ops.Linear.Comments.{own_comment, own_same}
use research_agent_ops.Linear.Accepted.Sound.{strips_into-ok}
use research_agent_ops.Linear.Accepted.Outcome.{DeliveryState, delivered, retryable, dead_letter}
use research_agent_ops.Linear.Reply.{LinearSessionReplyEvent, build_linear_session_reply_event}
use research_agent_ops.Linear.Reply.Built.{Envelops, build-Envelops}
use research_agent_ops.Linear.Reply.Project.{
  Projection, validate_reply_target, validate_reply_comment, reply_comment_checks, comment_checked,
  reply_created, reply_comment, reply_observed, reply_targeted, reply_preflighted, project_reply,
}

module _ (platform : Platform) where
  -- A comment that passes the check is the author's, in the target's thread, and strips to the payload.
  validate_reply_comment-none :
      (e : LinearSessionReplyEvent) (c : LinearCommentObservation) (app : String)
      → validate_reply_comment platform e c app ≡ none
      → (c.author_app_id ≡ app)
        × (c.issue_id ≡ e.target.issue_id)
        × (c.thread_id ≡ e.target.thread_id)
        × (strip_linear_transport_envelope c.body (codes e.marker) ≡ ok e.renderer_payload)
  unfolding validate_reply_comment
  validate_reply_comment-none e c app h =
      let passed = first_error-none (reply_comment_checks platform e c app) h in
      (
        (eq_iff c.author_app_id app).0 (ground (arith, passed.0)),
        (eq_iff c.issue_id e.target.issue_id).0 (ground (arith, passed.1.0)),
        (eq_iff c.thread_id e.target.thread_id).0 (ground (arith, passed.1.0)),
        strips_into-ok _ e.renderer_payload (ground (arith, passed.1.1.1.0)),
      )

  module _ {W : Type 0} (port : DeliveryPort W) (e : LinearSessionReplyEvent) (app : String) where
    -- The port has answered with a comment.
    abbrev pub Shows : LinearCommentObservation → Type 0
    Shows c =
        (w : W) × (((port.observe_comment e.target.issue_id e.marker app (some e.target.thread_id)
              w).0
            ≡ ok (answered (some c)))
          ⊎ ((port.create_comment e.target.issue_id e.transport_body (some e.target.thread_id) w).0
              ≡ ok (answered c)))

    -- What is returned with a state.
    abbrev pub IsHonest : DeliveryState → Option LinearCommentObservation → Type 0
    IsHonest delivered comment =
        (c : LinearCommentObservation) × (comment ≡ some c)
        × Shows c
        × (c.author_app_id ≡ app)
        × (c.issue_id ≡ e.target.issue_id)
        × (c.thread_id ≡ e.target.thread_id)
        × (c.body ≡ e.transport_body)
    IsHonest retryable comment = comment ≡ none
    IsHonest dead_letter comment = comment ≡ none

    abbrev pub Honest : Result Projection → Type 0
    Honest (err c) = Unit
    Honest (ok p) = IsHonest p.state p.comment

    fail : (c : Code) → Honest (err c)
    fail c = tt

    module _ (envelops : Envelops e) where
      comment_checked-Honest :
          (c : LinearCommentObservation) (reason : Option String) (w : W)
          → Shows c
          → validate_reply_comment platform e c app ≡ reason
          → Honest (comment_checked platform c reason w).0
      unfolding comment_checked
      comment_checked-Honest c (some reason) w shown passed = refl
      comment_checked-Honest c none w shown passed =
          let (author, issue, thread, payload) = validate_reply_comment-none e c app passed in
          let stripped = strip-add e.renderer_payload (codes e.marker) envelops in
          let body =
            stripped_body c.body (codes e.marker) payload
            ∙ sym (stripped_body e.transport_body (codes e.marker) stripped) in
          (c, refl, shown, author, issue, thread, body)

      reply_created-Honest :
          (r : Response LinearCommentObservation) (u w : W)
          → (port.create_comment e.target.issue_id e.transport_body (some e.target.thread_id) w).0
            ≡ ok r
          → Honest (reply_created platform e app r u).0
      unfolding reply_created
      reply_created-Honest unavailable u w answer = refl
      reply_created-Honest (answered c) u w answer =
          comment_checked-Honest c (validate_reply_comment platform e c app) u (w, inr answer) refl

      reply_comment-Honest :
          (found : Option LinearCommentObservation) (w : W)
          → ((c : LinearCommentObservation) → found ≡ some c → Shows c)
          → Honest (reply_comment platform port e app found w).0
      unfolding reply_comment
      reply_comment-Honest (some c) w shown =
          comment_checked-Honest c (validate_reply_comment platform e c app) w (shown c refl) refl
      reply_comment-Honest none w shown =
          bind-result Honest fail
            (port.create_comment e.target.issue_id e.transport_body (some e.target.thread_id))
            (reply_created platform e app) w
            λ created answer. reply_created-Honest created _ w answer

      reply_observed-Honest :
          (r : Response (Option LinearCommentObservation)) (u w : W)
          → (port.observe_comment e.target.issue_id e.marker app (some e.target.thread_id) w).0
            ≡ ok r
          → Honest (reply_observed platform port e app r u).0
      unfolding reply_observed
      reply_observed-Honest unavailable u w answer = refl
      reply_observed-Honest (answered none) u w answer = reply_comment-Honest none u λ c missing. cc
      reply_observed-Honest (answered (some c)) u w answer =
          reply_comment-Honest (own_comment app (some c)) u
            λ own is_own. (w, inl (answer ∙ ap (λ x. ok (answered x)) (own_same app c own is_own)))

      reply_targeted-Honest :
          (code : Option String) (w : W) → Honest (reply_targeted platform port e app code w).0
      unfolding reply_targeted
      reply_targeted-Honest (some code) w = refl
      reply_targeted-Honest none w =
          bind-result Honest fail
            (port.observe_comment e.target.issue_id e.marker app (some e.target.thread_id))
            (reply_observed platform port e app) w
            λ found answer. reply_observed-Honest found _ w answer

      reply_preflighted-Honest :
          (r : Response (Option LinearReplyTargetObservation)) (w : W)
          → Honest (reply_preflighted platform port e app r w).0
      unfolding reply_preflighted
      reply_preflighted-Honest unavailable w = refl
      reply_preflighted-Honest (answered target) w =
          reply_targeted-Honest (validate_reply_target e.target target) w

      pub project_reply-enveloped : (w : W) → Honest (project_reply platform port e app w).0
      unfolding project_reply
      project_reply-enveloped w =
          bind-result Honest fail (port.preflight_reply_target e.target)
            (reply_preflighted platform port e app) w λ target _. reply_preflighted-Honest target _

  -- An attempt to project a reply whose event `build_linear_session_reply_event` returned: if it returns
  -- `delivered`, it returns a comment that the port has answered with, of the app, in the target's thread,
  -- with the event's transport body as its body; if it returns another state, it returns no comment.
  pub project_reply-Honest :
      {W : Type 0} (port : DeliveryPort W) (project_id outbox_id app : String) (payload : Fields)
      (e : LinearSessionReplyEvent) (w : W)
      → build_linear_session_reply_event platform project_id outbox_id payload ≡ ok e
      → Honest port e app (project_reply platform port e app w).0
  project_reply-Honest port project_id outbox_id app payload e w built =
      project_reply-enveloped port e app
        (build-Envelops platform project_id outbox_id payload built) w
