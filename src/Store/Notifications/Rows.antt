-- ===== src/Store/Notifications/Rows.antt =====
-- The rows of notifications, and those that a notification refers to (src/researchctl/runtime/store.py).
use research_agent_ops.Base.{
  ℕ, String, Bool, ◌&&◌, ◌||◌, not, Option, none, some, ◌∷◌, ◌==◌, nat_eq, string_eq, option_eq,
  if◌then◌else◌, any,
}
use research_agent_ops.Json.{Json, Fields, object, string, field, end}
use research_agent_ops.Store.Schema.{
  Store, RuntimeSession, SourceMarker, NotificationOrigin, NotificationRow, session,
  manager_exception, pending, ReplyRow, OutboxRow, DeliveryStatusRow,
}
use research_agent_ops.Store.Sessions.{has_session, has_ended, fallback}

-- WHERE notification_id = ?
abbrev pub has_notification : String → NotificationRow → Bool
has_notification id n = n.notification_id == id

-- WHERE project_id = ? AND source_comment_id = ? AND session_id = ?
abbrev pub has_source : String → String → String → NotificationRow → Bool
has_source project_id comment_id session_id n =
    n.project_id == project_id && (n.source_comment_id == comment_id && n.session_id == session_id)

-- WHERE reply_id = ?
abbrev pub has_reply : String → ReplyRow → Bool
has_reply id r = r.reply_id == id

abbrev pub has_outbox : String → OutboxRow → Bool
has_outbox id r = r.outbox_id == id

abbrev pub has_status : String → String → DeliveryStatusRow → Bool
has_status topic outbox_id r = r.topic == topic && r.outbox_id == outbox_id

abbrev optional_field : String → Option String → Fields → Fields
optional_field k none rest = rest
optional_field k (some v) rest = field k (string v) rest

abbrev marker_value : SourceMarker → Json
marker_value m = object (
    field "agent_id" (string m.agent_id) (
      field "task_id" (string m.task_id) (
        field "session_id" (string m.session_id) (
          optional_field "report_id" m.report_id
            (field "marker_digest" (string m.marker_digest) end)))))

-- `origin.model_dump(mode="json", exclude_none=True)`
abbrev pub origin_value : NotificationOrigin → Json
origin_value o = object (
    field "transport" (string "linear") (
      field "workspace_id" (string o.workspace_id) (
        field "issue_id" (string o.issue_id) (
          field "thread_id" (string o.thread_id) (
            field "comment_id" (string o.comment_id) (elim o.source_marker [
              | none ↦ end
              | some m ↦ field "source_marker" (marker_value m) end
            ]))))))

-- The arguments of `create_notification`.
pub record NotificationInput : Type 0 where
  pub notification_id : String
  pub project_id : String
  pub task_id : String
  pub session_id : String
  pub commit_sha : String
  pub message : String
  pub origin : NotificationOrigin

-- A row as it is inserted, routed by the state of its Session.
abbrev pub new_notification : NotificationInput → RuntimeSession → String → ℕ → NotificationRow
new_notification x owner origin_json at = record {
  notification_id = x.notification_id;
  project_id = x.project_id;
  task_id = x.task_id;
  session_id = x.session_id;
  linear_issue_id = x.origin.issue_id;
  source_thread_id = x.origin.thread_id;
  source_comment_id = x.origin.comment_id;
  commit_sha = x.commit_sha;
  message_text = x.message;
  origin = x.origin;
  origin_json = origin_json;
  route = if has_ended owner.state then manager_exception else session;
  state = pending;
  revision = 1;
  created_at = at;
  routed_at = at;
  fallback_reason = if has_ended owner.state then some (fallback owner.state) else none;
  acknowledged_by = none;
  acknowledged_at = none;
  acknowledged_operation_id = none;
  reply_id = none;
  replied_by = none;
  replied_at = none;
}

-- `observed_identity == requested_identity`
abbrev pub same_content : NotificationInput → String → NotificationRow → Bool
same_content x origin_json n =
    n.project_id == x.project_id
    && (n.task_id == x.task_id
        && (n.session_id == x.session_id
            && (n.commit_sha == x.commit_sha
                && (n.message_text == x.message
                    && (n.linear_issue_id == x.origin.issue_id
                        && (n.source_thread_id == x.origin.thread_id
                            && (n.source_comment_id == x.origin.comment_id
                                && n.origin_json == origin_json)))))))

-- INSERT INTO session_notifications: the primary key, the UNIQUE source, and the foreign key
abbrev pub notification_clashes : NotificationRow → Store → Bool
notification_clashes n s =
    any
      (λ m.
        has_notification n.notification_id m
        || has_source n.project_id n.source_comment_id n.session_id m)
      s.notifications
    || not (any (has_session n.session_id) s.sessions)

abbrev pub add_notification : NotificationRow → Store → Store
add_notification n s = record s { notifications = n ∷ s.notifications }
