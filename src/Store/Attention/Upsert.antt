-- ===== src/Store/Attention/Upsert.antt =====
-- The rows of the attention inbox and a signal that meets them (`_upsert_attention` of
-- src/researchctl/runtime/store.py).
use Prim.Native.String.{compare}
use text.Mathlib.Text.{is_le}
use research_agent_ops.Base.{
  ℕ, ◌+◌, String, Bool, true, false, ◌&&◌, ◌||◌, not, Option, none, some, ◌∷◌, ◌==◌, nat_eq,
  string_eq, ltb, if◌then◌else◌, find, any, update,
}
use research_agent_ops.Errors.{ok}
use research_agent_ops.Exec.{Exec, gets, ◌>>=◌, skip}
use research_agent_ops.Store.Schema.{
  Store, StatusRow, AttentionRow, AttentionState, open_, acknowledged, resolved, ActionRow,
}
use research_agent_ops.Store.Transaction.{insert_row}

-- the primary key of attention_items
abbrev pub attention_key : AttentionRow → String
attention_key r = r.dedupe_key

-- WHERE dedupe_key = ?
abbrev pub has_key : String → AttentionRow → Bool
has_key key r = r.dedupe_key == key

-- WHERE update_id = ?
abbrev pub has_update : String → StatusRow → Bool
has_update id r = r.update_id == id

-- WHERE action_key = ?
abbrev pub has_action : String → ActionRow → Bool
has_action key r = r.action_key == key

-- What an update says of its attention item: the key, `_attention_descriptor` and
-- `_attention_evidence_digest`.
pub record Signal : Type 0 where
  pub dedupe_key : String
  pub project_id : String
  pub task_id : String
  pub session_id : String
  pub kind : String
  pub identity : String
  pub priority : ℕ
  pub evidence_digest : String
  pub update_id : String
  pub observed_at : ℕ

abbrev pub new_item : Signal → AttentionRow
new_item g = record {
  dedupe_key = g.dedupe_key;
  project_id = g.project_id;
  task_id = g.task_id;
  session_id = g.session_id;
  kind = g.kind;
  identity_text = g.identity;
  priority = g.priority;
  state = open_;
  generation = 1;
  evidence_digest = g.evidence_digest;
  current_update_id = g.update_id;
  first_seen_at = g.observed_at;
  last_seen_at = g.observed_at;
  acknowledged_by = none;
  acknowledged_at = none;
  acknowledged_update_id = none;
  snoozed_by = none;
  snoozed_until = none;
  snoozed_update_id = none;
  resolved_by = none;
  resolved_at = none;
  resolved_update_id = none;
  resolution_reason = none;
}

-- INSERT INTO attention_items: the primary key, and the foreign key
abbrev pub item_clashes : AttentionRow → Store → Bool
item_clashes r s =
    any (has_key r.dedupe_key) s.attention_items
    || not (any (has_update r.current_update_id) s.status_updates)

abbrev pub add_item : AttentionRow → Store → Store
add_item r s = record s { attention_items = r ∷ s.attention_items }

-- `material_changed`
abbrev pub reopened : Signal → AttentionRow → AttentionRow
reopened g r = record r {
  priority = g.priority;
  state = open_;
  generation = r.generation + 1;
  evidence_digest = g.evidence_digest;
  current_update_id = g.update_id;
  last_seen_at = g.observed_at;
  acknowledged_by = none;
  acknowledged_at = none;
  acknowledged_update_id = none;
  snoozed_by = none;
  snoozed_until = none;
  snoozed_update_id = none;
  resolved_by = none;
  resolved_at = none;
  resolved_update_id = none;
  resolution_reason = none;
}

abbrev pub unacknowledged : Signal → AttentionRow → AttentionRow
unacknowledged g r = record r {
  state = open_;
  current_update_id = g.update_id;
  last_seen_at = g.observed_at;
  acknowledged_by = none;
  acknowledged_at = none;
  acknowledged_update_id = none;
}

abbrev pub seen_again : Signal → AttentionRow → AttentionRow
seen_again g r = record r { current_update_id = g.update_id; last_seen_at = g.observed_at }

abbrev pub is_acknowledged : AttentionState → Bool
is_acknowledged acknowledged = true
is_acknowledged _ = false

abbrev pub is_resolved : AttentionState → Bool
is_resolved resolved = true
is_resolved _ = false

-- The three UPDATE branches, by the row that they are about.
abbrev pub refreshed : Signal → AttentionRow → AttentionRow → AttentionRow
refreshed g existing =
    if not (existing.evidence_digest == g.evidence_digest)
    then reopened g
    else if is_acknowledged existing.state
    then unacknowledged g
    else seen_again g

abbrev pub set_item : String → (AttentionRow → AttentionRow) → Store → Store
set_item key f s = record s { attention_items = update (has_key key) f s.attention_items }

-- `incoming_order <= current_order`
abbrev pub is_outdated : Signal → AttentionRow → Bool
is_outdated g r =
    ltb g.observed_at r.last_seen_at
    || g.observed_at == r.last_seen_at && is_le (compare g.update_id r.current_update_id)

unfoldable pub upsert_row : Signal → Option AttentionRow → Exec Store (Unit {0})
unfolding insert_row
upsert_row g none = insert_row (item_clashes (new_item g)) (add_item (new_item g))
upsert_row g (some existing) = if is_outdated g existing then skip else λ s.
    (ok tt, set_item g.dedupe_key (refreshed g existing) s)

-- `_upsert_attention`
unfoldable pub upsert_attention : Signal → Exec Store (Unit {0})
unfolding upsert_row
upsert_attention g = do
  existing ← gets (λ s. find (has_key g.dedupe_key) s.attention_items)
  upsert_row g existing
