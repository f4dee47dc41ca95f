-- ===== src/Linear/Accepted/Deliver/Once.antt =====
-- The comments of repeated attempts to deliver one accepted result (`deliver` of
-- src/researchctl/services/linear_delivery.py).
use research_agent_ops.Base.{
  ℕ, zero, suc, ◌≤◌, String, ◌≡◌, refl, Option, none, some, List, [], ◌∷◌, string_eq,
}
use research_agent_ops.Errors.{ok, value_error}
use research_agent_ops.Exec.Respects.{Respects, Keep, Keep-IsPreorder, at-lift, at-raise_if}
use research_agent_ops.Exec.Unmoved.{Unmoved, unmoved_rules, unmoved-keeps, bind-keeps}
use research_agent_ops.Actor.{ActorContext, require_role, trusted_automation}
use research_agent_ops.Store.Checks.{is_blank}
use research_agent_ops.Linear.Remote.{
  Platform, LinearTargetObservation, LinearCommentObservation, Response, answered, unavailable,
  DeliveryPort,
}
use research_agent_ops.Linear.Comments.{own_comment, copies, IsLinear, create-copies}
use research_agent_ops.Linear.Accepted.{LinearAcceptedResultEvent, validate_event}
use research_agent_ops.Linear.Accepted.Target.{validate_remote_target}
use research_agent_ops.Linear.Accepted.Deliver.{
  created_checked, observed_checked, after_create, project_comment, after_observe, after_target,
  after_preflight, after_validation, deliver, validate_comment,
}
use research_agent_ops.Linear.Accepted.Outcome.{delivered_outcome}

module _ (platform : Platform) where
  module _ {W : Type 0} where
    delivered_outcome-Unmoved :
        (e : LinearAcceptedResultEvent) (c : LinearCommentObservation)
        → Respects (Unmoved {S = W}) (delivered_outcome platform e c)
    unfolding delivered_outcome
    delivered_outcome-Unmoved e c = search unmoved_rules depth 30

    created_checked-Unmoved :
        (e : LinearAcceptedResultEvent) (c : LinearCommentObservation) (reason : Option String)
        → Respects (Unmoved {S = W}) (created_checked platform e c reason)
    unfolding created_checked
    created_checked-Unmoved e c none = delivered_outcome-Unmoved e c
    created_checked-Unmoved e c (some reason) = search unmoved_rules

    observed_checked-Unmoved :
        (e : LinearAcceptedResultEvent) (c : LinearCommentObservation) (reason : Option String)
        → Respects (Unmoved {S = W}) (observed_checked platform e c reason)
    unfolding observed_checked
    observed_checked-Unmoved e c none = delivered_outcome-Unmoved e c
    observed_checked-Unmoved e c (some reason) = search unmoved_rules

    after_create-Unmoved :
        (e : LinearAcceptedResultEvent) (app : String) (r : Response LinearCommentObservation)
        → Respects (Unmoved {S = W}) (after_create platform e app r)
    unfolding after_create
    after_create-Unmoved e app unavailable = search unmoved_rules
    after_create-Unmoved e app (answered c) = created_checked-Unmoved e c _

  -- The world behind some attempts, with any outcomes.
  unfoldable pub attempts :
      {W : Type 0} → DeliveryPort W → LinearAcceptedResultEvent → String → ActorContext → ℕ → W → W
  attempts port e app actor zero w = w
  attempts port e app actor (suc n) w =
      attempts port e app actor n (deliver platform port actor e app w).1

  module _ {W : Type 0} (port : DeliveryPort W) (comments : W → List LinearCommentObservation)
      (is_linear : IsLinear port comments) (e : LinearAcceptedResultEvent) (app : String) where
    -- At most one comment on the issue carries the event's marker.
    abbrev AtMostOne : W → Type 0
    AtMostOne w = copies port comments app e.target.issue_id e.marker none w ≤ 1

    still_one : (w u : W) → comments u ≡ comments w → AtMostOne w → AtMostOne u
    still_one w u same one = rw same one

    project_comment-AtMostOne :
        (found : Option LinearCommentObservation) (w : W)
        → AtMostOne w
        → (found ≡ none → copies port comments app e.target.issue_id e.marker none w ≡ 0)
        → AtMostOne (project_comment platform port e app found w).1
    unfolding project_comment
    project_comment-AtMostOne (some c) w one absent =
        unmoved-keeps AtMostOne (observed_checked platform e c (validate_comment platform e c app))
          w (observed_checked-Unmoved e c (validate_comment platform e c app)) one
    project_comment-AtMostOne none w one absent =
        let created_once =
          create-copies port comments is_linear app e.target.issue_id e.marker none
            e.target.issue_id e.transport_body none w (absent refl) in
        bind-keeps AtMostOne (port.create_comment e.target.issue_id e.transport_body none) _ w
          created_once
          λ created answer.
            unmoved-keeps AtMostOne (after_create platform e app created) _
              (after_create-Unmoved e app created) created_once

    after_observe-AtMostOne :
        (r : Response (Option LinearCommentObservation)) (w u : W)
        → comments u ≡ comments w
        → AtMostOne u
        → (port.observe_comment e.target.issue_id e.marker app none w).0 ≡ ok r
        → AtMostOne (after_observe platform port e app r u).1
    unfolding after_observe
    after_observe-AtMostOne unavailable w u same one answer = one
    after_observe-AtMostOne (answered found) w u same one answer =
        project_comment-AtMostOne (own_comment app found) u one (λ missing.
          rw same
            (is_linear.observe_finds e.target.issue_id e.marker app none w found answer missing))

    after_target-AtMostOne :
        (code : Option String) (w : W)
        → AtMostOne w
        → AtMostOne (after_target platform port e app code w).1
    unfolding after_target
    after_target-AtMostOne (some code) w one = one
    after_target-AtMostOne none w one =
        let same = is_linear.observe_reads e.target.issue_id e.marker app none w in
        let kept = still_one w _ same one in
        bind-keeps AtMostOne (port.observe_comment e.target.issue_id e.marker app none) _ w kept
          λ found answer. after_observe-AtMostOne found w _ same kept answer

    after_preflight-AtMostOne :
        (r : Response (Option LinearTargetObservation)) (w : W)
        → AtMostOne w
        → AtMostOne (after_preflight platform port e app r w).1
    unfolding after_preflight
    after_preflight-AtMostOne unavailable w one = one
    after_preflight-AtMostOne (answered target) w one =
        after_target-AtMostOne (validate_remote_target e.target target) w one

    after_validation-AtMostOne :
        (code : Option String) (w : W)
        → AtMostOne w
        → AtMostOne (after_validation platform port e app code w).1
    unfolding after_validation
    after_validation-AtMostOne (some code) w one = one
    after_validation-AtMostOne none w one =
        let kept = still_one w _ (is_linear.preflight_reads e.target w) one in
        bind-keeps AtMostOne (port.preflight_target e.target) _ w kept
          λ target answer. after_preflight-AtMostOne target _ kept

    deliver-AtMostOne :
        (actor : ActorContext) → Respects (Keep AtMostOne) (deliver platform port actor e app)
    unfolding deliver
    deliver-AtMostOne actor = record {
      at = λ w.
          at-lift (Keep-IsPreorder AtMostOne) (require_role actor (trusted_automation ∷ [])) _ w
            λ _. at-raise_if (Keep-IsPreorder AtMostOne) (is_blank app) value_error _ w λ _.
              at-lift (Keep-IsPreorder AtMostOne) (validate_event platform e)
                (after_validation platform port e app) w λ code. after_validation-AtMostOne code w;
    }

    -- Any number of attempts to deliver an event, each with any outcome, leaves at most one comment of
    -- the app on the issue that ends with the event's marker, where there was at most one and the port
    -- is as promised: only `create_comment` changes the comments, by one at most whether it answers or
    -- not, and `observe_comment` answers a comment of the app that carries the marker if there is one.
    pub attempts_comment_once :
        (actor : ActorContext) (n : ℕ) (w : W)
        → copies port comments app e.target.issue_id e.marker none w ≤ 1
        → copies port comments app e.target.issue_id e.marker none (attempts port e app actor n w)
          ≤ 1
    unfolding attempts
    attempts_comment_once actor zero w one = one
    attempts_comment_once actor (suc n) w one =
        attempts_comment_once actor n _ ((deliver-AtMostOne actor).at w one)
