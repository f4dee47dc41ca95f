-- ===== src/Linear/Reply/Project/Once.antt =====
-- The comments of repeated attempts to project one reply (`_project_reply` of
-- src/researchctl/services/linear_worker.py).
use research_agent_ops.Base.{
  ℕ, zero, suc, ◌≤◌, String, ◌≡◌, refl, Option, none, some, List, string_eq,
}
use research_agent_ops.Errors.{ok}
use research_agent_ops.Exec.Respects.{Respects}
use research_agent_ops.Exec.Unmoved.{Unmoved, unmoved_rules, unmoved-keeps, bind-keeps}
use research_agent_ops.Linear.Remote.{
  Platform, LinearReplyTargetObservation, LinearCommentObservation, Response, answered, unavailable,
  DeliveryPort,
}
use research_agent_ops.Linear.Comments.{own_comment, copies, IsLinear, create-copies}
use research_agent_ops.Linear.Reply.{LinearSessionReplyEvent}
use research_agent_ops.Linear.Reply.Project.{
  validate_reply_target, validate_reply_comment, comment_checked, reply_created, reply_comment,
  reply_observed, reply_targeted, reply_preflighted, project_reply,
}

module _ (platform : Platform) where
  module _ {W : Type 0} where
    comment_checked-Unmoved :
        (c : LinearCommentObservation) (reason : Option String)
        → Respects (Unmoved {S = W}) (comment_checked platform c reason)
    unfolding comment_checked
    comment_checked-Unmoved c none = search unmoved_rules
    comment_checked-Unmoved c (some reason) = search unmoved_rules

    reply_created-Unmoved :
        (e : LinearSessionReplyEvent) (app : String) (r : Response LinearCommentObservation)
        → Respects (Unmoved {S = W}) (reply_created platform e app r)
    unfolding reply_created
    reply_created-Unmoved e app unavailable = search unmoved_rules
    reply_created-Unmoved e app (answered c) =
        comment_checked-Unmoved c (validate_reply_comment platform e c app)

  -- The world behind some attempts, with any outcomes.
  unfoldable pub replies :
      {W : Type 0} → DeliveryPort W → LinearSessionReplyEvent → String → ℕ → W → W
  replies port e app zero w = w
  replies port e app (suc n) w = replies port e app n (project_reply platform port e app w).1

  module _ {W : Type 0} (port : DeliveryPort W) (comments : W → List LinearCommentObservation)
      (is_linear : IsLinear port comments) (e : LinearSessionReplyEvent) (app : String) where
    -- How many comments in the thread carry the reply's marker.
    abbrev pub reply_copies : W → ℕ
    reply_copies w = copies port comments app e.target.issue_id e.marker (some e.target.thread_id) w

    abbrev AtMostOne : W → Type 0
    AtMostOne w = reply_copies w ≤ 1

    still_one : (w u : W) → comments u ≡ comments w → AtMostOne w → AtMostOne u
    still_one w u same one = rw same one

    reply_comment-AtMostOne :
        (found : Option LinearCommentObservation) (w : W)
        → AtMostOne w
        → (found ≡ none → reply_copies w ≡ 0)
        → AtMostOne (reply_comment platform port e app found w).1
    unfolding reply_comment
    reply_comment-AtMostOne (some c) w one absent =
        let reason = validate_reply_comment platform e c app in
        unmoved-keeps AtMostOne (comment_checked platform c reason) w
          (comment_checked-Unmoved c reason) one
    reply_comment-AtMostOne none w one absent =
        let thread = some e.target.thread_id in
        let created_once =
          create-copies port comments is_linear app e.target.issue_id e.marker thread
            e.target.issue_id e.transport_body thread w (absent refl) in
        bind-keeps AtMostOne (port.create_comment e.target.issue_id e.transport_body thread) _ w
          created_once
          λ created answer.
            unmoved-keeps AtMostOne (reply_created platform e app created) _
              (reply_created-Unmoved e app created) created_once

    reply_observed-AtMostOne :
        (r : Response (Option LinearCommentObservation)) (w u : W)
        → comments u ≡ comments w
        → AtMostOne u
        → (port.observe_comment e.target.issue_id e.marker app (some e.target.thread_id) w).0 ≡ ok r
        → AtMostOne (reply_observed platform port e app r u).1
    unfolding reply_observed
    reply_observed-AtMostOne unavailable w u same one answer = one
    reply_observed-AtMostOne (answered found) w u same one answer =
        reply_comment-AtMostOne (own_comment app found) u one λ missing. rw same (
          is_linear.observe_finds e.target.issue_id e.marker app (some e.target.thread_id) w found
            answer missing)

    reply_targeted-AtMostOne :
        (code : Option String) (w : W)
        → AtMostOne w
        → AtMostOne (reply_targeted platform port e app code w).1
    unfolding reply_targeted
    reply_targeted-AtMostOne (some code) w one = one
    reply_targeted-AtMostOne none w one =
        let same =
          is_linear.observe_reads e.target.issue_id e.marker app (some e.target.thread_id) w in
        let kept = still_one w _ same one in
        bind-keeps AtMostOne
          (port.observe_comment e.target.issue_id e.marker app (some e.target.thread_id)) _ w kept
          λ found answer. reply_observed-AtMostOne found w _ same kept answer

    reply_preflighted-AtMostOne :
        (r : Response (Option LinearReplyTargetObservation)) (w : W)
        → AtMostOne w
        → AtMostOne (reply_preflighted platform port e app r w).1
    unfolding reply_preflighted
    reply_preflighted-AtMostOne unavailable w one = one
    reply_preflighted-AtMostOne (answered target) w one =
        reply_targeted-AtMostOne (validate_reply_target e.target target) w one

    project_reply-AtMostOne :
        (w : W) → AtMostOne w → AtMostOne (project_reply platform port e app w).1
    unfolding project_reply
    project_reply-AtMostOne w one =
        let kept = still_one w _ (is_linear.reply_preflight_reads e.target w) one in
        bind-keeps AtMostOne (port.preflight_reply_target e.target) _ w kept
          λ target answer. reply_preflighted-AtMostOne target _ kept

    -- Any number of attempts to project a reply, each with any outcome, leaves at most one comment of the
    -- app in the target's thread that ends with the reply's marker, where there was at most one and the
    -- port is as promised: only `create_comment` changes the comments, by one at most whether it answers
    -- or not, and `observe_comment` answers a comment of the app that carries the marker if there is one.
    pub replies_comment_once :
        (n : ℕ) (w : W) → reply_copies w ≤ 1 → reply_copies (replies port e app n w) ≤ 1
    unfolding replies
    replies_comment_once zero w one = one
    replies_comment_once (suc n) w one = replies_comment_once n _ (project_reply-AtMostOne w one)
