-- ===== src/Store/Replies/Aside.antt =====
-- Steps of reply_notification (src/researchctl/runtime/store.py), as they bear on the Sessions.
use research_agent_ops.Base.{ℕ, String, refl, Option, none, some, nat_eq, string_eq}
use research_agent_ops.Exec.Respects.{
  Respects, Respects-bind, Respects-lift, Respects-pure, Respects-or_raise, Respects-raise_if,
  Respects-gets,
}
use research_agent_ops.Store.Schema.{NotificationRow, ReplyRow, JsonText, Datetime}
use research_agent_ops.Store.Transaction.{Respects-write_transaction, Respects-read_lock}
use research_agent_ops.Store.Notifications.{get_notification}
use research_agent_ops.Store.Replies.{
  ReplyInput, reply_row, reply_clashes, add_reply, set_replied, reply_outbox_row,
  reply_outbox_clashes, add_reply_outbox, new_status, status_clashes, add_status, reply_topic,
  reply_outbox_id, write_reply, published_reply, reply_new, reply_row_of, reply_body, check_reply,
  reply_notification,
}
use research_agent_ops.Store.Leaves.{
  LeavesSessions, LeavesSessions-IsPreorder, insert_row-LeavesSessions, write-LeavesSessions,
}
use research_agent_ops.Store.Notifications.Aside.{require_operation-Respects}

ruleset leave_rules = (
  LeavesSessions-IsPreorder, Respects-bind, Respects-lift, Respects-pure, Respects-raise_if,
  Respects-gets, Respects-or_raise, Respects-write_transaction, Respects-read_lock,
  require_operation-Respects,
)

write_reply-LeavesSessions :
    (x : ReplyInput) (n : NotificationRow) (payload : JsonText) (digest : String) (at : ℕ)
    → Respects LeavesSessions (write_reply x n payload digest at)
unfolding write_reply
write_reply-LeavesSessions x n payload digest at =
    let r = reply_row x n payload digest at in
    let o = reply_outbox_row x n payload at in
    let d = new_status reply_topic (reply_outbox_id x.reply_id) n.project_id at in
    Respects-bind LeavesSessions-IsPreorder _ _
      (insert_row-LeavesSessions (reply_clashes r) (add_reply r) (λ s. refl))
      λ _.
        Respects-bind LeavesSessions-IsPreorder _ _
          (write-LeavesSessions (set_replied x at) (λ s. refl))
          λ _.
            Respects-bind LeavesSessions-IsPreorder _ _
              (insert_row-LeavesSessions (reply_outbox_clashes o) (add_reply_outbox o) (λ s. refl))
              λ _. insert_row-LeavesSessions (status_clashes d) (add_status d) (λ s. refl)

module _ (sha256 : String → String) (format_time : ℕ → String) where
  reply_row_of-LeavesSessions :
      (x : ReplyInput) (at : ℕ) (n : NotificationRow) (known : Option ReplyRow)
      → Respects LeavesSessions (reply_row_of sha256 format_time x at n known)
  unfolding reply_row_of reply_new
  reply_row_of-LeavesSessions x at n none =
      search (leave_rules, write_reply-LeavesSessions) depth 30
  reply_row_of-LeavesSessions x at n (some known) = Respects-raise_if LeavesSessions-IsPreorder _ _

  pub reply_notification-LeavesSessions :
      (x : ReplyInput) (o : Datetime)
      → Respects LeavesSessions (reply_notification sha256 format_time x o)
  unfolding reply_notification check_reply reply_body published_reply get_notification
  reply_notification-LeavesSessions x o = search (leave_rules, reply_row_of-LeavesSessions) depth 40
