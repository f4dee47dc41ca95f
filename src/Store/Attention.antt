-- ===== src/Store/Attention.antt =====
-- The attention inbox (`_upsert_attention`, `ack_attention`, `snooze_attention`,
-- `resolve_attention`, `_apply_attention_action`, `get_attention`, `list_inbox` of
-- src/researchctl/runtime/store.py).
mod Upsert
pub mod Actions
pub mod Continuity
pub mod Consistency
pub mod Listing
unfoldable pub use Upsert.*
use Prim.Native.String.{compare, ◌++◌ as ◌<>◌}
use text.Mathlib.Text.{is_le}
use research_agent_ops.Base.{
  sort_by, ℕ, ◌+◌, String, Bool, true, false, ◌&&◌, ◌||◌, not, Option, none, some, List, [], ◌∷◌,
  ◌==◌, nat_eq, string_eq, ltb, leb, if◌then◌else◌, find, any, update, select,
}
use research_agent_ops.Errors.{
  Result, ok, err, attention_not_found, stale_attention, attention_resolved, invalid_snooze,
  operation_not_found, runtime_store_corrupt, assertion_error,
}
use research_agent_ops.Json.{Json, object, string, int, null, field, end}
use research_agent_ops.Exec.{Exec, pure, lift, gets, or_raise, ◌>>=◌, ◌>>◌, raise_if, skip}
use research_agent_ops.Store.Schema.{
  Store, Datetime, JsonText, StatusRow, AttentionRow, AttentionState, open_, acknowledged, snoozed,
  resolved, ActionRow,
}
use research_agent_ops.Store.Checks.{require_text, encode_time, json_object}
use research_agent_ops.Store.Transaction.{write_transaction, read_lock, insert_row}
use research_agent_ops.Store.Operations.{has_id}

-- The action, with the argument that its detail carries.
pub data Action : Type 0 where
  ack : Action
  snooze : ℕ → Action
  resolve : String → Action

abbrev pub action_name : Action → String
action_name ack = "ack"
action_name (snooze until) = "snooze"
action_name (resolve reason) = "resolve"

-- The arguments that the three methods share.
pub record ActionInput : Type 0 where
  pub dedupe_key : String
  pub actor : String
  pub action : Action
  pub expected_generation : Option ℕ
  pub operation_id : Option String

-- The UPDATE of each action.
abbrev pub acted : ActionInput → ℕ → AttentionRow → AttentionRow
acted x at r = elim x.action [
  | ack ↦ record r {
    state = acknowledged;
    acknowledged_by = some x.actor;
    acknowledged_at = some at;
    acknowledged_update_id = some r.current_update_id;
    snoozed_by = none;
    snoozed_until = none;
    snoozed_update_id = none;
  }
  | snooze until ↦ record r {
    state = snoozed;
    snoozed_by = some x.actor;
    snoozed_until = some until;
    snoozed_update_id = some r.current_update_id;
  }
  | resolve reason ↦ record r {
    state = resolved;
    resolved_by = some x.actor;
    resolved_at = some at;
    resolved_update_id = some r.current_update_id;
    resolution_reason = some reason;
    snoozed_by = none;
    snoozed_until = none;
    snoozed_update_id = none;
  }
]

abbrev pub action_row : ActionInput → String → String → ℕ → AttentionRow → ActionRow
action_row x key detail at r = record {
  action_key = key;
  dedupe_key = x.dedupe_key;
  action = action_name x.action;
  actor = x.actor;
  source_update_id = r.current_update_id;
  operation_id = x.operation_id;
  generation = r.generation;
  observed_at = at;
  detail_json = detail;
}

abbrev pub knows_operation : Option String → Store → Bool
knows_operation none s = true
knows_operation (some id) s = any (has_id id) s.operations

-- INSERT INTO attention_actions: the primary key, and the foreign keys
abbrev pub action_clashes : ActionRow → Store → Bool
action_clashes a s =
    any (has_action a.action_key) s.attention_actions
    || (not (any (has_key a.dedupe_key) s.attention_items)
        || (not (any (has_update a.source_update_id) s.status_updates)
            || not (knows_operation a.operation_id s)))

abbrev pub add_action : ActionRow → Store → Store
add_action a s = record s { attention_actions = a ∷ s.attention_actions }

abbrev is_expected : Option ℕ → ℕ → Bool
is_expected none generation = true
is_expected (some n) generation = n == generation

-- an AttentionItem: the row, and the update that it is about
pub record AttentionItem : Type 0 where
  pub row : AttentionRow
  pub current_update : StatusRow

-- `_attention_from_row`
pub attention_from_row : AttentionRow → Exec Store AttentionItem
attention_from_row r = do
  found ← gets (λ s. find (has_update r.current_update_id) s.status_updates)
  current ← or_raise runtime_store_corrupt found
  pure (record { row = r; current_update = current })

attention_from : Option AttentionRow → Exec Store (Option AttentionItem)
unfolding attention_from_row
attention_from none = pure none
attention_from (some r) = do item ← attention_from_row r; pure (some item)

unfoldable pub get_attention : String → Exec Store (Option AttentionItem)
unfolding attention_from read_lock
get_attention key = do
  row ← read_lock (λ s. find (has_key key) s.attention_items)
  attention_from row

-- a value of a nullable column, in a payload
abbrev pub optional_text : Option String → Json
optional_text none = null
optional_text (some v) = string v

-- The digest of a text, and the text of a UTC time.
module _ (sha256 : String → String) (format_time : ℕ → String) where
  -- `detail`
  abbrev pub action_detail : Action → Json
  action_detail ack = object end
  action_detail (snooze until) = object (field "until" (string (format_time until)) end)
  action_detail (resolve reason) = object (field "reason" (string reason) end)

  -- `action_material`
  abbrev pub action_material : ActionInput → AttentionRow → Json
  action_material x r = object (
      field "dedupe_key" (string x.dedupe_key) (
        field "action" (string (action_name x.action)) (
          field "actor" (string x.actor) (
            field "source_update_id" (string r.current_update_id) (
              field "operation_id" (optional_text x.operation_id) (
                field "generation" (int r.generation)
                  (field "detail" (action_detail x.action) end)))))))

  -- The branch on the row with the action's key.
  pub act_new : ActionInput → ℕ → String → String → AttentionRow → Bool → Exec Store (Unit {0})
  unfolding insert_row
  act_new x at key detail r true = skip
  act_new x at key detail r false = do
    raise_if (is_resolved r.state) attention_resolved
    insert_row (action_clashes (action_row x key detail at r))
        (add_action (action_row x key detail at r))
    λ s. (ok tt, set_item x.dedupe_key (acted x at) s)

  pub act_row : ActionInput → ℕ → String → AttentionRow → Exec Store (Unit {0})
  unfolding act_new
  act_row x at detail r = do
    known_operation ← gets (knows_operation x.operation_id)
    raise_if (not known_operation) operation_not_found
    raise_if (not (is_expected x.expected_generation r.generation)) stale_attention
    material ← lift (json_object (action_material x r))
    let key = "sha256:" <> sha256 material.encoded
    known ← gets (λ s. any (has_action key) s.attention_actions)
    act_new x at key detail r known

  pub act_body : ActionInput → ℕ → String → Exec Store (Unit {0})
  unfolding act_row
  act_body x at detail = do
    row ← gets (λ s. find (has_key x.dedupe_key) s.attention_items)
    r ← or_raise attention_not_found row
    act_row x at detail r

  check_action : ActionInput → Datetime → Exec Store (ℕ × JsonText)
  check_action x observed_at = do
    lift (require_text x.dedupe_key)
    lift (require_text x.actor)
    at ← lift (encode_time observed_at)
    detail ← lift (json_object (action_detail x.action))
    pure (at, detail)

  -- `_apply_attention_action`
  pub apply_action : ActionInput → Datetime → Exec Store AttentionItem
  unfolding check_action act_body write_transaction get_attention
  apply_action x observed_at = do
    checked ← check_action x observed_at
    write_transaction (act_body x checked.0 checked.1.encoded)
    item ← get_attention x.dedupe_key
    or_raise assertion_error item

  module _ (key actor : String) (expected : Option ℕ) (operation_id : Option String) where
    abbrev pub action_input : Action → ActionInput
    action_input action = record {
      dedupe_key = key;
      actor = actor;
      action = action;
      expected_generation = expected;
      operation_id = operation_id;
    }

    unfoldable pub ack_attention : Datetime → Exec Store AttentionItem
    unfolding apply_action
    ack_attention observed_at = apply_action (action_input ack) observed_at

    unfoldable pub snooze_attention : Datetime → Datetime → Exec Store AttentionItem
    unfolding apply_action
    snooze_attention until observed_at = do
      raise_if (leb until.instant observed_at.instant) invalid_snooze
      t ← lift (encode_time until)
      apply_action (action_input (snooze t)) observed_at

    unfoldable pub resolve_attention : String → Datetime → Exec Store AttentionItem
    unfolding apply_action
    resolve_attention reason observed_at = do
      lift (require_text reason)
      apply_action (action_input (resolve reason)) observed_at

-- ORDER BY priority, last_seen_at, dedupe_key
abbrev pub is_more_urgent : AttentionRow → AttentionRow → Bool
is_more_urgent a b =
    ltb a.priority b.priority
    || a.priority == b.priority
      && (ltb a.last_seen_at b.last_seen_at
          || a.last_seen_at == b.last_seen_at && is_le (compare a.dedupe_key b.dedupe_key))

-- state IN ('open', 'acknowledged') OR (state = 'snoozed' AND snoozed_until <= ?)
abbrev pub is_due : ℕ → AttentionRow → Bool
is_due now r = elim r.state [
  | open_ ↦ true
  | acknowledged ↦ true
  | snoozed ↦ elim r.snoozed_until [ none ↦ false | some t ↦ leb t now ]
  | resolved ↦ false
]

items_from : List AttentionRow → Exec Store (List AttentionItem)
unfolding attention_from_row
items_from [] = pure []
items_from (r ∷ rows) = do item ← attention_from_row r; items ← items_from rows; pure (item ∷ items)

-- the WHERE clause, where a call that includes resolved items passes no time
abbrev pub is_listed : String → ℕ → Bool → AttentionRow → Bool
is_listed project_id now include_resolved r =
    r.project_id == project_id && (include_resolved || is_due now r)

pub inbox_rows : String → ℕ → Bool → Store → List AttentionRow
unfolding sort_by
inbox_rows project_id now include_resolved s =
    sort_by is_more_urgent (select (is_listed project_id now include_resolved) s.attention_items)

-- `list_inbox`; the caller passes the time that `as_of or datetime.now(UTC)` gives
unfoldable pub list_inbox : String → Datetime → Bool → Exec Store (List AttentionItem)
unfolding inbox_rows items_from read_lock
list_inbox project_id now include_resolved = do
  at ← if include_resolved then pure 0 else lift (encode_time now)
  rows ← read_lock (inbox_rows project_id at include_resolved)
  items_from rows
