-- ===== src/Linear/Reply/Project.antt =====
-- One attempt to project a Session's reply (`_project_reply`, `_validate_reply_comment`,
-- `_reply_receipt` of src/researchctl/services/linear_worker.py) over a port to Linear.
pub mod Once
pub mod Delivered
use Prim.Native.String.{◌++◌ as ◌<>◌}
use research_agent_ops.Base.{
  codes, String, Bool, true, false, ◌&&◌, ◌||◌, not, Option, none, some, List, [], ◌∷◌, ◌==◌,
  string_eq, if◌then◌else◌, Bytes, bytes_eq,
}
use research_agent_ops.Errors.{Result, ok, err}
use research_agent_ops.Json.{Json, string, object, field, end}
use research_agent_ops.Exec.{Exec, pure, ◌>>=◌}
use research_agent_ops.Linear.Envelope.{strip_linear_transport_envelope}
use research_agent_ops.Linear.Remote.{
  Platform, LinearReplyTarget, LinearReplyTargetObservation, LinearCommentObservation, Response,
  answered, unavailable, DeliveryPort, is_linear_uuid, first_error, canonical_hex, bytes_digest,
}
use research_agent_ops.Linear.Comments.{own_comment}
use research_agent_ops.Linear.Accepted.{strips, strips_into}
use research_agent_ops.Linear.Accepted.Deliver.{stripped_digest}
use research_agent_ops.Linear.Accepted.Outcome.{DeliveryState, delivered, retryable, dead_letter}
use research_agent_ops.Linear.Reply.{LinearSessionReplyEvent}

-- What `_project_reply` returns.
pub record Projection : Type 0 where
  pub state : DeliveryState
  pub error_code : Option String
  pub comment : Option LinearCommentObservation

abbrev pub later : Projection
later = record {
  state = retryable;
  error_code = some "linear_delivery_unavailable";
  comment = none;
}

abbrev pub refused : String → Projection
refused code = record { state = dead_letter; error_code = some code; comment = none }

-- The tests of the target that was observed.
abbrev target_checks : LinearReplyTarget → LinearReplyTargetObservation → List (Bool × String)
target_checks t o =
    (
      not (o.workspace_id == t.workspace_id)
          || not (o.issue_id == t.issue_id)
          || not (o.thread_id == t.thread_id)
          || not (o.source_comment_id == t.source_comment_id),
      "linear_reply_target_mismatch",
    )
    ∷ (
      o.workspace_archived || o.issue_archived || o.thread_archived,
      "linear_reply_target_archived",
    )
    ∷ []

unfoldable pub validate_reply_target :
    LinearReplyTarget → Option LinearReplyTargetObservation → Option String
unfolding first_error
validate_reply_target t none = some "linear_reply_target_not_found"
validate_reply_target t (some o) = first_error (target_checks t o)

module _ (platform : Platform) where
  abbrev pub reply_comment_checks :
      LinearSessionReplyEvent → LinearCommentObservation → String → List (Bool × String)
  reply_comment_checks e c app =
      let stripped = strip_linear_transport_envelope c.body (codes e.marker) in
      (not (c.author_app_id == app), "linear_reply_comment_author_mismatch")
      ∷ (
        not (c.issue_id == e.target.issue_id)
            || not (c.thread_id == e.target.thread_id)
            || not (is_linear_uuid c.comment_id),
        "linear_reply_comment_target_mismatch",
      )
      ∷ (not (strips stripped), "linear_reply_comment_marker_mismatch")
      ∷ (not (strips_into stripped e.renderer_payload), "linear_reply_comment_payload_mismatch")
      ∷ (
        not (stripped_digest platform stripped == e.payload_digest),
        "linear_reply_comment_payload_mismatch",
      )
      ∷ []

  -- `_validate_reply_comment`
  unfoldable pub validate_reply_comment :
      LinearSessionReplyEvent → LinearCommentObservation → String → Option String
  unfolding first_error is_linear_uuid strip_linear_transport_envelope bytes_eq
  validate_reply_comment e c app = first_error (reply_comment_checks e c app)

  -- `receipt_id` of `_reply_receipt`
  unfoldable pub reply_receipt_id :
      LinearSessionReplyEvent → LinearCommentObservation → Result String
  unfolding canonical_hex
  reply_receipt_id e c =
      elim (canonical_hex platform (
        object (
          field "kind" (string "linear.projection-receipt.v1") (
            field "event_id" (string e.event_id) (
              field "comment_id" (string c.comment_id) (
                field "author_app_id" (string c.author_app_id) (
                  field "payload_digest" (string e.payload_digest)
                    (field "marker" (string e.marker) end)))))))) [
                      | err c ↦ err c
                      | ok hex ↦ ok ("linear-receipt-" <> hex)
                    ]

  module _ {W : Type 0} where
    -- The branch on the check of the comment.
    pub comment_checked : LinearCommentObservation → Option String → Exec W Projection
    comment_checked c (some code) = pure (refused code)
    comment_checked c none =
        pure (record { state = delivered; error_code = none; comment = some c })

    pub reply_created :
        LinearSessionReplyEvent → String → Response LinearCommentObservation → Exec W Projection
    unfolding comment_checked validate_reply_comment
    reply_created e app unavailable = pure later
    reply_created e app (answered c) = comment_checked c (validate_reply_comment e c app)

  module _ {W : Type 0} (port : DeliveryPort W) where
    pub reply_comment :
        LinearSessionReplyEvent → String → Option LinearCommentObservation → Exec W Projection
    unfolding comment_checked reply_created validate_reply_comment
    reply_comment e app (some c) = comment_checked c (validate_reply_comment e c app)
    reply_comment e app none = do
      created ← port.create_comment e.target.issue_id e.transport_body (some e.target.thread_id)
      reply_created e app created

    pub reply_observed :
        LinearSessionReplyEvent
        → String
        → Response (Option LinearCommentObservation)
        → Exec W Projection
    unfolding reply_comment
    reply_observed e app unavailable = pure later
    reply_observed e app (answered found) = reply_comment e app (own_comment app found)

    pub reply_targeted : LinearSessionReplyEvent → String → Option String → Exec W Projection
    unfolding reply_observed
    reply_targeted e app (some code) = pure (refused code)
    reply_targeted e app none = do
      found ← port.observe_comment e.target.issue_id e.marker app (some e.target.thread_id)
      reply_observed e app found

    pub reply_preflighted :
        LinearSessionReplyEvent
        → String
        → Response (Option LinearReplyTargetObservation)
        → Exec W Projection
    unfolding reply_targeted validate_reply_target
    reply_preflighted e app unavailable = pure later
    reply_preflighted e app (answered target) =
        reply_targeted e app (validate_reply_target e.target target)

    -- `_project_reply`
    unfoldable pub project_reply : LinearSessionReplyEvent → String → Exec W Projection
    unfolding reply_preflighted
    project_reply e app = do
      target ← port.preflight_reply_target e.target
      reply_preflighted e app target
