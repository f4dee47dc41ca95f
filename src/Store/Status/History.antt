-- ===== src/Store/Status/History.antt =====
-- Any sequence of calls of the methods of status updates and of the attention inbox, failing or
-- not.
use research_agent_ops.Base.{ℕ, String, Option, List, [], ◌∷◌}
use research_agent_ops.Json.{Json}
use research_agent_ops.Exec.{Exec, pure, ◌>>◌}
use research_agent_ops.Exec.Respects.{IsPreorder, Keep, Respects, Respects-bind, Respects-pure}
use research_agent_ops.Store.Schema.{Store, StatusUpdate, Datetime}
use research_agent_ops.Store.Attention.{ack_attention, snooze_attention, resolve_attention}
use research_agent_ops.Store.Attention.Actions.{
  ack_attention-Respects, snooze_attention-Respects, resolve_attention-Respects,
}
use research_agent_ops.Store.Attention.Continuity.{Goes, Goes-IsPreorder, write_action-Goes}
use research_agent_ops.Store.Attention.Consistency.{
  InboxWell, Keep-InboxWell-IsPreorder, write_action-InboxWell,
}
use research_agent_ops.Store.Status.{publish_status_update}
use research_agent_ops.Store.Status.Continuity.{publish_status_update-Goes}
use research_agent_ops.Store.Status.Inbox.{publish_status_update-InboxWell}

pub data InboxRequest : Type 0 where
  publish_ : String → StatusUpdate → InboxRequest
  ack_ : String → String → Option ℕ → Option String → Datetime → InboxRequest
  snooze_ : String → String → Option ℕ → Option String → Datetime → Datetime → InboxRequest
  resolve_ : String → String → Option ℕ → Option String → String → Datetime → InboxRequest

module _ (casefold sha256 : String → String) (format_time : ℕ → String)
    (to_jsonable : StatusUpdate → Json) where
  unfoldable pub handle : InboxRequest → Exec Store (Unit {0})
  handle (publish_ project_id u) =
      publish_status_update casefold sha256 to_jsonable project_id u >> pure tt
  handle (ack_ key actor expected operation_id o) =
      ack_attention sha256 format_time key actor expected operation_id o >> pure tt
  handle (snooze_ key actor expected operation_id until o) =
      snooze_attention sha256 format_time key actor expected operation_id until o >> pure tt
  handle (resolve_ key actor expected operation_id reason o) =
      resolve_attention sha256 format_time key actor expected operation_id reason o >> pure tt

  unfoldable pub handle_all : List InboxRequest → Store → Store
  unfolding handle
  handle_all [] s = s
  handle_all (q ∷ qs) s = handle_all qs (handle q s).1

  module _ {R : Store → Store → Type 0} (R-IsPreorder : IsPreorder R) where
    handle_all-Respects :
        ((q : InboxRequest) → Respects R (handle q))
        → (qs : List InboxRequest) (s : Store) → R s (handle_all qs s)
    unfolding handle_all
    handle_all-Respects h [] s = R-IsPreorder.same s
    handle_all-Respects h (q ∷ qs) s =
        R-IsPreorder.then_ s (handle q s).1 (handle_all qs (handle q s).1) ((h q).at s)
          (handle_all-Respects h qs (handle q s).1)

  ruleset handle_rules = (
    Respects-bind, Respects-pure, ack_attention-Respects, snooze_attention-Respects,
    resolve_attention-Respects, Goes-IsPreorder, write_action-Goes, publish_status_update-Goes,
    Keep-InboxWell-IsPreorder, write_action-InboxWell, publish_status_update-InboxWell,
  )

  handle-Goes : (q : InboxRequest) → Respects Goes (handle q)
  unfolding handle
  handle-Goes (publish_ project_id u) = search handle_rules
  handle-Goes (ack_ key actor expected operation_id o) = search handle_rules
  handle-Goes (snooze_ key actor expected operation_id until o) = search handle_rules
  handle-Goes (resolve_ key actor expected operation_id reason o) = search handle_rules

  handle-InboxWell : (q : InboxRequest) → Respects (Keep InboxWell) (handle q)
  unfolding handle
  handle-InboxWell (publish_ project_id u) = search handle_rules
  handle-InboxWell (ack_ key actor expected operation_id o) = search handle_rules
  handle-InboxWell (snooze_ key actor expected operation_id until o) = search handle_rules
  handle-InboxWell (resolve_ key actor expected operation_id reason o) = search handle_rules

  -- Whatever calls of publish_status_update, ack_attention, snooze_attention and resolve_attention
  -- follow, returning or raising, every stored attention item stays under its key, about the same
  -- project, Task, Session, kind and identity and first seen at the same time; its generation and
  -- the time it was last seen do not go back; and while its generation stays the same, so do its
  -- evidence digest and its priority and, once it is resolved, its state and by whom, when and why
  -- it was resolved.
  pub items_continue : (qs : List InboxRequest) (s : Store) → Goes s (handle_all qs s)
  items_continue = handle_all-Respects Goes-IsPreorder handle-Goes

  -- If no two attention items have the same key, each names a stored update, has a generation of at
  -- least 1, was not last seen before it was first seen, has a snoozer and an end of the snooze
  -- exactly if it is snoozed, a time and a reason of resolution exactly if it is resolved, and a time
  -- of acknowledgement if it is acknowledged and none if it is open, then all of this holds behind
  -- any sequence of these calls.
  pub inbox_stays_well :
      (qs : List InboxRequest) (s : Store) → InboxWell s → InboxWell (handle_all qs s)
  inbox_stays_well = handle_all-Respects Keep-InboxWell-IsPreorder handle-InboxWell
