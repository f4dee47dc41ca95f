-- ===== src/Store/Listings.antt =====
-- The listings of the store (`list_notifications`, `list_linear_projection_outbox`,
-- `list_notification_reply_outbox`, `list_status_updates`, `list_outbox` of
-- src/researchctl/runtime/store.py).
use research_agent_ops.Base.{
  ℕ, String, Bool, true, false, ◌&&◌, ◌||◌, not, Option, none, some, List, ◌==◌, string_eq, leb,
  if◌then◌else◌, select, sort_by, is_earlier_by, first,
}
use research_agent_ops.Errors.{Result, ok, err, value_error}
use research_agent_ops.Exec.{Exec, lift, ◌>>=◌, ◌>>◌, raise_if}
use research_agent_ops.Store.Schema.{
  Store, OutboxRow, OutboxState, NotificationRow, NotificationRoute, StatusRow,
}
use research_agent_ops.Store.Checks.{require_text}
use research_agent_ops.Store.Transaction.{read_lock}
use research_agent_ops.Store.Sessions.{is_unreplied, is_session_route}

-- A clause of WHERE for an argument that may be None.
abbrev pub is_given : {A : Type 0} → (A → Bool) → Option A → Bool
is_given test none = true
is_given test (some a) = test a

-- `isinstance(limit, int) and 1 <= limit <= 1000`
abbrev pub is_limit : ℕ → Bool
is_limit limit = leb 1 limit && leb limit 1000

abbrev route_eq : NotificationRoute → NotificationRoute → Bool
route_eq a b = if is_session_route a then is_session_route b else not (is_session_route b)

abbrev pub is_listed_notification :
    String → Option String → Option NotificationRoute → Bool → NotificationRow → Bool
is_listed_notification project_id session_id route include_closed n =
    n.project_id == project_id
    && is_given (λ s. n.session_id == s) session_id
    && is_given (λ r. route_eq n.route r) route
    && (include_closed || is_unreplied n.state)

abbrev pub notification_before : NotificationRow → NotificationRow → Bool
notification_before = is_earlier_by (λ n. n.created_at) (λ n. n.notification_id)

unfoldable pub list_notifications :
    String → Option String → Option NotificationRoute → Bool → ℕ → Exec Store (List NotificationRow)
unfolding read_lock sort_by first
list_notifications project_id session_id route include_closed limit = do
  raise_if (not (is_limit limit)) value_error
  read_lock λ s. first limit (
      sort_by notification_before (
        select (is_listed_notification project_id session_id route include_closed) s.notifications))

-- A state of an outbox, as its column has it; another text raises ValueError.
abbrev pub outbox_state : String → Result OutboxState
outbox_state state =
    if state == "pending"
    then ok OutboxState.pending
    else if state == "delivered"
    then ok OutboxState.delivered
    else if state == "dead_letter"
    then ok OutboxState.dead_letter
    else err value_error

abbrev pub state_filter : Option String → Result (Option OutboxState)
state_filter none = ok none
state_filter (some state) = elim (outbox_state state) [ err c ↦ err c | ok s ↦ ok (some s) ]

abbrev pub outbox_state_eq : OutboxState → OutboxState → Bool
outbox_state_eq OutboxState.pending OutboxState.pending = true
outbox_state_eq OutboxState.delivered OutboxState.delivered = true
outbox_state_eq OutboxState.dead_letter OutboxState.dead_letter = true
outbox_state_eq _ _ = false

abbrev pub in_state : Option OutboxState → OutboxRow → Bool
in_state state r = is_given (outbox_state_eq r.state) state

-- ORDER BY created_at, outbox_id
abbrev pub outbox_before : OutboxRow → OutboxRow → Bool
outbox_before = is_earlier_by (λ r. r.created_at) (λ r. r.outbox_id)

pub list_linear_projection_outbox : String → Option String → Exec Store (List OutboxRow)
unfolding read_lock sort_by
list_linear_projection_outbox project_id state = do
  lift (require_text project_id)
  wanted ← lift (state_filter state)
  read_lock λ s.
      sort_by outbox_before
        (select (λ r. r.project_id == project_id && in_state wanted r) s.projection_outbox)

pub list_notification_reply_outbox : Option String → Exec Store (List OutboxRow)
unfolding read_lock sort_by
list_notification_reply_outbox state = do
  wanted ← lift (state_filter state)
  read_lock λ s. sort_by outbox_before (select (in_state wanted) s.reply_outbox)

-- ORDER BY observed_at, update_id
abbrev update_before : StatusRow → StatusRow → Bool
update_before = is_earlier_by (λ u. u.observed_at) (λ u. u.update_id)

pub list_status_updates : String → Option String → Exec Store (List StatusRow)
unfolding read_lock sort_by
list_status_updates project_id session_id = read_lock λ s. sort_by update_before (
    select (λ u. u.project_id == project_id && is_given (λ i. u.session_id == i) session_id)
      s.status_updates)

pub list_outbox : Option String → Bool → Exec Store (List OutboxRow)
unfolding read_lock sort_by
list_outbox project_id pending_only = read_lock λ s. sort_by outbox_before (
    select
      (λ r.
        is_given (λ i. r.project_id == i) project_id
        && (not pending_only || outbox_state_eq r.state OutboxState.pending))
      s.outbox_events)
