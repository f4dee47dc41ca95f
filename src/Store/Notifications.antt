-- ===== src/Store/Notifications.antt =====
-- Session notifications (`create_notification`, `ack_notification`, `get_notification`,
-- `_require_operation` of src/researchctl/runtime/store.py).
mod Rows
pub mod Routing
pub mod Tracking
pub mod Methods
pub mod Aside
unfoldable pub use Rows.*
use Prim.Native.String.{compare, ◌++◌ as ◌<>◌}
use text.Mathlib.Text.{is_le}
use research_agent_ops.Base.{
  ℕ, ◌+◌, String, Bool, true, false, ◌&&◌, ◌||◌, not, Option, none, some, List, [], ◌∷◌, ◌==◌,
  nat_eq, string_eq, option_eq, ltb, leb, if◌then◌else◌, find, any, update, select,
}
use research_agent_ops.Errors.{
  Result, ok, err, invalid_notification_commit, notification_session_not_found,
  notification_session_mismatch, notification_source_conflict, notification_id_conflict,
  notification_not_found, stale_notification, notification_closed, notification_reply_id_conflict,
  operation_not_found, runtime_store_corrupt, assertion_error, value_error,
}
use research_agent_ops.Json.{Json, Fields, object, string, int, null, field, end}
use research_agent_ops.Exec.{Exec, pure, lift, gets, or_raise, ◌>>=◌, ◌>>◌, raise_if, skip}
use research_agent_ops.Store.Schema.{
  Store, RuntimeSession, Datetime, JsonText, SourceMarker, NotificationOrigin, NotificationRow,
  NotificationRoute, NotificationState, session, manager_exception, pending, acknowledged, replied,
  ReplyRow, OutboxRow, OutboxState, DeliveryStatusRow,
}
use research_agent_ops.Store.Checks.{require_text, encode_time, json_object, is_object_id}
use research_agent_ops.Store.Transaction.{write_transaction, read_lock, insert_row}
use research_agent_ops.Store.Operations.{has_id}
use research_agent_ops.Store.Sessions.{
  has_session, has_ended, fallback, is_unreplied, is_session_route,
}

-- The branch on the row with the requested ID.
create_row :
    NotificationInput → RuntimeSession → String → ℕ → Option NotificationRow → Exec Store (Unit {0})
unfolding insert_row
create_row x owner origin_json at (some existing) =
    raise_if (not (same_content x origin_json existing)) notification_id_conflict
create_row x owner origin_json at none =
    let n = new_notification x owner origin_json at in
    insert_row (notification_clashes n) (add_notification n)

abbrev is_other : String → Option NotificationRow → Bool
is_other id none = false
is_other id (some n) = not (n.notification_id == id)

create_body : NotificationInput → String → ℕ → Exec Store (Unit {0})
unfolding create_row
create_body x origin_json at = do
  found ← gets (λ s. find (has_session x.session_id) s.sessions)
  owner ← or_raise notification_session_not_found found
  raise_if (not (owner.project_id == x.project_id && owner.task_id == x.task_id))
      notification_session_mismatch
  source_owner ←
      gets (λ s. find (has_source x.project_id x.origin.comment_id x.session_id) s.notifications)
  raise_if (is_other x.notification_id source_owner) notification_source_conflict
  existing ← gets (λ s. find (has_notification x.notification_id) s.notifications)
  create_row x owner origin_json at existing

unfoldable pub get_notification : String → Exec Store (Option NotificationRow)
unfolding read_lock
get_notification id = read_lock (λ s. find (has_notification id) s.notifications)

read_notification : String → Exec Store NotificationRow
unfolding get_notification
read_notification id = do found ← get_notification id; or_raise assertion_error found

check_notification : NotificationInput → Datetime → Exec Store (ℕ × JsonText)
check_notification x created_at = do
  lift (require_text x.notification_id)
  lift (require_text x.project_id)
  lift (require_text x.task_id)
  lift (require_text x.session_id)
  lift (require_text x.message)
  raise_if (not (is_object_id x.commit_sha)) invalid_notification_commit
  at ← lift (encode_time created_at)
  origin ← lift (json_object (origin_value x.origin))
  pure (at, origin)

unfoldable pub create_notification : NotificationInput → Datetime → Exec Store NotificationRow
unfolding check_notification create_body write_transaction read_notification
create_notification x created_at = do
  checked ← check_notification x created_at
  write_transaction (create_body x checked.1.encoded checked.0)
  read_notification x.notification_id

-- `_require_operation`
unfoldable pub require_operation : String → Exec Store (Unit {0})
require_operation id s =
    if any (has_id id) s.operations then (ok tt, s) else (err operation_not_found, s)

abbrev pub is_acknowledged : NotificationState → Bool
is_acknowledged acknowledged = true
is_acknowledged _ = false

abbrev pub is_pending : NotificationState → Bool
is_pending pending = true
is_pending _ = false

abbrev pub with_ack : String → ℕ → String → NotificationRow → NotificationRow
with_ack actor at operation_id n = record n {
  state = acknowledged;
  revision = n.revision + 1;
  acknowledged_by = some actor;
  acknowledged_at = some at;
  acknowledged_operation_id = some operation_id;
}

abbrev pub set_ack : String → String → ℕ → String → Store → Store
set_ack id actor at operation_id s = record s {
  notifications = update (has_notification id) (with_ack actor at operation_id) s.notifications;
}

-- `same_operation_replay`
abbrev is_replay : NotificationRow → String → String → Bool
is_replay n actor operation_id =
    is_acknowledged n.state
    && (n.acknowledged_operation_id == some operation_id && n.acknowledged_by == some actor)

ack_pending : String → String → ℕ → String → NotificationRow → Exec Store (Unit {0})
unfolding require_operation
ack_pending id actor at operation_id n =
    if is_pending n.state
    then (do require_operation operation_id; λ s. (ok tt, set_ack id actor at operation_id s))
    else skip

ack_row : String → String → ℕ → ℕ → String → NotificationRow → Exec Store (Unit {0})
unfolding ack_pending
ack_row id actor at expected operation_id n = if is_replay n actor operation_id then skip else do
  raise_if (not (n.revision == expected)) stale_notification
  raise_if (not (is_unreplied n.state)) notification_closed
  ack_pending id actor at operation_id n

ack_body : String → String → ℕ → ℕ → String → Exec Store (Unit {0})
unfolding ack_row
ack_body id actor at expected operation_id = do
  found ← gets (λ s. find (has_notification id) s.notifications)
  n ← or_raise notification_not_found found
  ack_row id actor at expected operation_id n

pub ack_notification : String → String → Datetime → ℕ → String → Exec Store NotificationRow
unfolding ack_body write_transaction read_notification
ack_notification id actor observed_at expected operation_id = do
  lift (require_text actor)
  at ← lift (encode_time observed_at)
  write_transaction (ack_body id actor at expected operation_id)
  read_notification id
