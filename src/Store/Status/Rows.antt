-- ===== src/Store/Status/Rows.antt =====
-- The rows of status updates and of their events, the checks of an update, and the statements that
-- write them (`_validate_status_semantics`, `get_status_update`, `get_outbox` of
-- src/researchctl/runtime/store.py).
use Prim.Native.Char.{code}
use Prim.Native.String.{◌++◌ as ◌<>◌}
use research_agent_ops.Base.{
  ℕ, String, Bool, true, false, ◌&&◌, ◌||◌, not, Option, none, some, List, [], ◌∷◌, ◌==◌, string_eq,
  if◌then◌else◌, find, any,
}
use research_agent_ops.Errors.{
  invalid_status_update, status_session_not_found, status_session_mismatch, status_update_conflict,
}
use research_agent_ops.Exec.{Exec, gets, or_raise, ◌>>=◌, ◌>>◌, raise_if, skip}
use research_agent_ops.Store.Schema.{
  Store, JsonText, StatusUpdate, StatusKind, running, blocked, needs_input, ready_for_review,
  StatusRow, OutboxRow, OutboxState,
}
use research_agent_ops.Store.Checks.{is_space}
use research_agent_ops.Store.Transaction.{read_lock, insert_row}
use research_agent_ops.Store.Sessions.{has_session}
use research_agent_ops.Store.Notifications.{has_outbox}
use research_agent_ops.Store.Attention.{has_update, AttentionItem}

abbrev pub kind_text : StatusKind → String
kind_text running = "running"
kind_text blocked = "blocked"
kind_text needs_input = "needs_input"
kind_text ready_for_review = "ready_for_review"

abbrev is_blocked : StatusKind → Bool
is_blocked blocked = true
is_blocked _ = false

abbrev is_needs_input : StatusKind → Bool
is_needs_input needs_input = true
is_needs_input _ = false

abbrev pub is_none {ℓ} : {A : Type ℓ} → Option A → Bool
is_none none = true
is_none (some _) = false

-- `_validate_status_semantics`
unfoldable pub validate_status_semantics : StatusUpdate → Exec Store (Unit {0})
validate_status_semantics u = do
  raise_if
      (not (is_none u.blocker_category) && is_none u.blocker_detail
        || is_none u.blocker_category && not (is_none u.blocker_detail))
      invalid_status_update
  raise_if (is_blocked u.status && is_none u.blocker_category) invalid_status_update
  raise_if (not (is_blocked u.status) && not (is_none u.blocker_category)) invalid_status_update
  raise_if (is_needs_input u.status && is_none u.decision_needed) invalid_status_update

-- `str.split()`, behind the letters of a word that has begun
unfoldable pub words_from : String → String → List String
unfolding is_space
words_from word String.[] = if word == "" then [] else word ∷ []
words_from word (String.◌∷◌ c s) =
    let rest = words_from (if is_space (code c) then "" else word <> String.◌∷◌ c "") s in
    if is_space (code c) && not (word == "") then word ∷ rest else rest

unfoldable pub join_words : List String → String
join_words [] = ""
join_words (w ∷ []) = w
join_words (w ∷ x ∷ ws) = w <> (" " <> join_words (x ∷ ws))

-- The branches of `_attention_descriptor` on a blocked update's category.
abbrev pub blocked_descriptor : String → String × String × ℕ
blocked_descriptor category =
    if category == "failed" || (category == "lost" || category == "failed_or_lost")
    then ("failed_or_lost", category, 50)
    else if category == "stale" || (category == "needs_rerun" || category == "stale_or_needs_rerun")
    then ("stale_or_needs_rerun", category, 40)
    else if category == "waiting"
    then ("waiting", category, 70)
    else ("blocked", if category == "" then "blocked" else category, 20)

-- UNIQUE (topic, aggregate_id), and the primary key
abbrev pub event_known : OutboxRow → Store → Bool
event_known o s =
    any (λ q. has_outbox o.outbox_id q || q.topic == o.topic && q.aggregate_id == o.aggregate_id)
      s.outbox_events

abbrev pub add_outbox_event : OutboxRow → Store → Store
add_outbox_event o s = record s { outbox_events = o ∷ s.outbox_events }

-- whether the event's update is stored: the foreign key
abbrev pub event_dangles : OutboxRow → Store → Bool
event_dangles o s = not (any (has_update o.aggregate_id) s.status_updates)

-- the conflicts that OR IGNORE passes over do not include the foreign key
unfoldable pub insert_event_unless : OutboxRow → Bool → Exec Store (Unit {0})
unfolding insert_row
insert_event_unless o true = skip
insert_event_unless o false = insert_row (event_dangles o) (add_outbox_event o)

-- INSERT OR IGNORE INTO outbox_events
unfoldable pub enqueue_event : OutboxRow → Exec Store (Unit {0})
unfolding insert_event_unless
enqueue_event o = do known ← gets (event_known o); insert_event_unless o known

-- INSERT INTO status_updates: the primary key, and the foreign key
abbrev pub update_clashes : StatusRow → Store → Bool
update_clashes r s =
    any (has_update r.update_id) s.status_updates || not (any (has_session r.session_id) s.sessions)

abbrev pub add_update : StatusRow → Store → Store
add_update r s = record s { status_updates = r ∷ s.status_updates }

abbrev pub status_outbox_id : String → String
status_outbox_id update_id = "status-update:" <> update_id

abbrev pub status_topic : String
status_topic = "status_update.v1"

unfoldable pub get_status_update : String → Exec Store (Option StatusRow)
unfolding read_lock
get_status_update id = read_lock (λ s. find (has_update id) s.status_updates)

unfoldable pub get_outbox : String → Exec Store (Option OutboxRow)
unfolding read_lock
get_outbox id = read_lock (λ s. find (has_outbox id) s.outbox_events)

-- a PublishedStatus; the update is in the row that it was read from
pub record PublishedStatus : Type 0 where
  pub update : StatusRow
  pub outbox : OutboxRow
  pub attention : AttentionItem

abbrev pub same_update : StatusRow → StatusRow → Bool
same_update new existing =
    existing.project_id == new.project_id
    && (existing.payload_digest == new.payload_digest && existing.payload_json == new.payload_json)

-- The branch on the row with the update's ID.
unfoldable pub store_update : StatusRow → Option StatusRow → Exec Store (Unit {0})
unfolding insert_row
store_update new (some existing) = raise_if (not (same_update new existing)) status_update_conflict
store_update new none = insert_row (update_clashes new) (add_update new)

unfoldable pub check_status_session : String → StatusUpdate → Exec Store (Unit {0})
check_status_session project_id u = do
  found ← gets (λ s. find (has_session u.session_id) s.sessions)
  session ← or_raise status_session_not_found found
  raise_if (not (session.project_id == project_id) || not (session.task_id == u.task_id))
      status_session_mismatch

abbrev pub status_event : String → StatusUpdate → JsonText → ℕ → OutboxRow
status_event project_id u text at = record {
  outbox_id = status_outbox_id u.update_id;
  project_id = project_id;
  topic = status_topic;
  aggregate_id = u.update_id;
  payload_json = text;
  created_at = at;
  state = OutboxState.pending;
}
