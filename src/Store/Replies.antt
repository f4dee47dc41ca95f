-- ===== src/Store/Replies.antt =====
-- Replies to notifications (`reply_notification`, `_published_notification_reply` and the reads of
-- src/researchctl/runtime/store.py): one transaction writes the reply, closes the notification,
-- and enqueues the delivery.
pub mod Methods
pub mod Aside
pub mod Published
use Prim.Native.String.{◌++◌ as ◌<>◌}
use research_agent_ops.Base.{
  ℕ, ◌+◌, String, Bool, true, false, ◌&&◌, ◌||◌, not, Option, none, some, List, [], ◌∷◌, ◌==◌,
  nat_eq, string_eq, if◌then◌else◌, find, any, update,
}
use research_agent_ops.Errors.{
  Result, ok, err, notification_not_found, stale_notification, notification_closed,
  notification_reply_id_conflict, runtime_store_corrupt,
}
use research_agent_ops.Json.{Json, object, string, int, null, field, end}
use research_agent_ops.Exec.{Exec, pure, lift, gets, or_raise, ◌>>=◌, ◌>>◌, raise_if, skip}
use research_agent_ops.Store.Schema.{
  Store, Datetime, JsonText, SourceMarker, NotificationOrigin, NotificationRow, replied, ReplyRow,
  OutboxRow, OutboxState, DeliveryStatusRow,
}
use research_agent_ops.Store.Checks.{require_text, encode_time, json_object}
use research_agent_ops.Store.Transaction.{write_transaction, read_lock, insert_row}
use research_agent_ops.Store.Operations.{has_id}
use research_agent_ops.Store.Sessions.{is_unreplied}
use research_agent_ops.Store.Notifications.{
  has_notification, has_reply, has_outbox, has_status, require_operation, get_notification,
}

-- The arguments of `reply_notification`.
pub record ReplyInput : Type 0 where
  pub notification_id : String
  pub reply_id : String
  pub actor_id : String
  pub body : String
  pub expected_revision : ℕ
  pub operation_id : String

abbrev pub reply_topic : String
reply_topic = "linear.session-reply.v1"

abbrev pub reply_outbox_id : String → String
reply_outbox_id reply_id = "notification-reply:" <> reply_id

abbrev report_value : NotificationOrigin → Json
report_value o = elim o.source_marker [
  | none ↦ null
  | some m ↦ elim m.report_id [ none ↦ null | some r ↦ string r ]
]

-- `payload`, with the time in its text form
abbrev reply_payload : ReplyInput → NotificationRow → String → Json
reply_payload x n time = object (
    field "version" (int 1) (
      field "transport" (string "linear") (
        field "workspace_id" (string n.origin.workspace_id) (
          field "linear_issue_id" (string n.linear_issue_id) (
            field "source_thread_id" (string n.source_thread_id) (
              field "source_comment_id" (string n.source_comment_id) (
                field "notification_id" (string x.notification_id) (
                  field "reply_id" (string x.reply_id) (
                    field "task_id" (string n.task_id) (
                      field "session_id" (string n.session_id) (
                        field "commit_sha" (string n.commit_sha) (
                          field "body" (string x.body) (
                            field "actor_id" (string x.actor_id) (
                              field "replied_at" (string time) (
                                field "marker"
                                  (object (
                                    field "agent_id" (string x.actor_id) (
                                      field "task_id" (string n.task_id) (
                                        field "session_id" (string n.session_id) (
                                          field "report_id" (report_value n.origin) (
                                            field "notification_id" (string x.notification_id)
                                              (field "reply_id" (string x.reply_id) end)))))))
                                  end)))))))))))))))

abbrev pub reply_row : ReplyInput → NotificationRow → JsonText → String → ℕ → ReplyRow
reply_row x n payload digest at = record {
  reply_id = x.reply_id;
  notification_id = x.notification_id;
  project_id = n.project_id;
  task_id = n.task_id;
  session_id = n.session_id;
  actor_id = x.actor_id;
  body_text = x.body;
  payload_digest = digest;
  payload_json = payload;
  created_at = at;
  operation_id = x.operation_id;
}

-- INSERT INTO notification_replies: the primary key, UNIQUE notification_id, the foreign keys
abbrev pub reply_clashes : ReplyRow → Store → Bool
reply_clashes r s =
    any (λ q. has_reply r.reply_id q || q.notification_id == r.notification_id) s.replies
    || (not (any (has_notification r.notification_id) s.notifications)
        || not (any (has_id r.operation_id) s.operations))

abbrev pub add_reply : ReplyRow → Store → Store
add_reply r s = record s { replies = r ∷ s.replies }

abbrev pub closed_by : ReplyInput → ℕ → NotificationRow → NotificationRow
closed_by x at n = record n {
  state = replied;
  revision = n.revision + 1;
  reply_id = some x.reply_id;
  replied_by = some x.actor_id;
  replied_at = some at;
}

abbrev pub set_replied : ReplyInput → ℕ → Store → Store
set_replied x at s = record s {
  notifications = update (has_notification x.notification_id) (closed_by x at) s.notifications;
}

abbrev pub reply_outbox_row : ReplyInput → NotificationRow → JsonText → ℕ → OutboxRow
reply_outbox_row x n payload at = record {
  outbox_id = reply_outbox_id x.reply_id;
  project_id = n.project_id;
  topic = reply_topic;
  aggregate_id = x.reply_id;
  payload_json = payload;
  created_at = at;
  state = OutboxState.pending;
}

-- INSERT INTO notification_reply_outbox: the primary key, UNIQUE aggregate_id, the foreign key
abbrev pub reply_outbox_clashes : OutboxRow → Store → Bool
reply_outbox_clashes r s =
    any (λ q. has_outbox r.outbox_id q || q.aggregate_id == r.aggregate_id) s.reply_outbox
    || not (any (has_reply r.aggregate_id) s.replies)

abbrev pub add_reply_outbox : OutboxRow → Store → Store
add_reply_outbox r s = record s { reply_outbox = r ∷ s.reply_outbox }

abbrev pub new_status : String → String → String → ℕ → DeliveryStatusRow
new_status topic outbox_id project_id at = record {
  topic = topic;
  outbox_id = outbox_id;
  project_id = project_id;
  attempt_count = 0;
  last_error_code = none;
  last_claim_id = none;
  updated_at = at;
}

-- INSERT INTO linear_delivery_status: PRIMARY KEY (topic, outbox_id)
abbrev pub status_clashes : DeliveryStatusRow → Store → Bool
status_clashes r s = any (has_status r.topic r.outbox_id) s.delivery_status

abbrev pub add_status : DeliveryStatusRow → Store → Store
add_status r s = record s { delivery_status = r ∷ s.delivery_status }

abbrev pub same_reply : ReplyInput → ReplyRow → Bool
same_reply x r =
    r.notification_id == x.notification_id && (r.actor_id == x.actor_id && r.body_text == x.body)

-- The writes of a new reply.
pub write_reply : ReplyInput → NotificationRow → JsonText → String → ℕ → Exec Store (Unit {0})
unfolding insert_row
write_reply x n payload digest at = do
  let r = reply_row x n payload digest at
  insert_row (reply_clashes r) (add_reply r)
  λ s. (ok tt, set_replied x at s)
  let o = reply_outbox_row x n payload at
  insert_row (reply_outbox_clashes o) (add_reply_outbox o)
  let d = new_status reply_topic (reply_outbox_id x.reply_id) n.project_id at
  insert_row (status_clashes d) (add_status d)

pub record PublishedReply : Type 0 where
  pub notification : NotificationRow
  pub reply : ReplyRow
  pub outbox : OutboxRow

-- `_published_notification_reply`
pub published_reply : String → Exec Store PublishedReply
unfolding read_lock get_notification
published_reply reply_id = do
  found ← read_lock (λ s. find (has_reply reply_id) s.replies)
  queued ← read_lock (λ s. find (has_outbox (reply_outbox_id reply_id)) s.reply_outbox)
  reply ← or_raise runtime_store_corrupt found
  outbox ← or_raise runtime_store_corrupt queued
  closed ← get_notification reply.notification_id
  notification ← or_raise runtime_store_corrupt closed
  pure (record { notification = notification; reply = reply; outbox = outbox })

check_reply : ReplyInput → Datetime → Exec Store ℕ
check_reply x observed_at = do
  lift (require_text x.reply_id)
  lift (require_text x.actor_id)
  lift (require_text x.body)
  lift (encode_time observed_at)

-- The digest of the payload's bytes, and the text of a UTC time, as the standard library gives them.
module _ (sha256 : String → String) (format_time : ℕ → String) where
  -- The branch on the row with the reply's ID.
  pub reply_new : ReplyInput → ℕ → NotificationRow → Exec Store (Unit {0})
  unfolding write_reply require_operation
  reply_new x at n = do
    raise_if (not (n.revision == x.expected_revision)) stale_notification
    raise_if (not (is_unreplied n.state)) notification_closed
    require_operation x.operation_id
    payload ← lift (json_object (reply_payload x n (format_time at)))
    write_reply x n payload ("sha256:" <> sha256 payload.encoded) at

  reply_row_of : ReplyInput → ℕ → NotificationRow → Option ReplyRow → Exec Store (Unit {0})
  unfolding reply_new
  reply_row_of x at n (some known) =
      raise_if (not (same_reply x known)) notification_reply_id_conflict
  reply_row_of x at n none = reply_new x at n

  pub reply_body : ReplyInput → ℕ → Exec Store (Unit {0})
  unfolding reply_row_of
  reply_body x at = do
    found ← gets (λ s. find (has_notification x.notification_id) s.notifications)
    n ← or_raise notification_not_found found
    known ← gets (λ s. find (has_reply x.reply_id) s.replies)
    reply_row_of x at n known

  unfoldable pub reply_notification : ReplyInput → Datetime → Exec Store PublishedReply
  unfolding check_reply reply_body write_transaction published_reply
  reply_notification x observed_at = do
    at ← check_reply x observed_at
    write_transaction (reply_body x at)
    published_reply x.reply_id
