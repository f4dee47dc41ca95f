-- ===== src/Store/Attention/Actions.antt =====
-- What the actions on an attention item do to the store (`ack_attention`, `snooze_attention`,
-- `resolve_attention` of src/researchctl/runtime/store.py), for any relation that holds across the
-- write of an action.
use Prim.Native.String.{◌++◌ as ◌<>◌}
use research_agent_ops.Store.Checks.{json_object}
use research_agent_ops.Base.{
  ℕ, String, ◌≡◌, Bool, true, false, not, Option, none, some, string_eq, find, any,
}
use research_agent_ops.Errors.{
  attention_resolved, attention_not_found, operation_not_found, stale_attention,
}
use research_agent_ops.Exec.Respects.{
  IsPreorder, Respects, Respects-bind, Respects-lift, Respects-pure, Respects-or_raise,
  Respects-raise_if, Respects-gets, at-raise_if, at-or_raise, at-lift,
}
use research_agent_ops.Store.Schema.{Store, AttentionRow, Datetime}
use research_agent_ops.Store.Transaction.{
  Respects-write_transaction, Respects-read_lock, at-insert_row_then,
}
use research_agent_ops.Store.Attention.{
  knows_operation, is_expected, action_material, has_action, has_key, is_resolved, set_item,
  ActionInput, acted, action_row, action_clashes, add_action, act_new, act_row, act_body,
  check_action, apply_action, ack_attention, snooze_attention, resolve_attention, get_attention,
  attention_from, attention_from_row,
}

module _ {R : Store → Store → Type 0} (R-IsPreorder : IsPreorder R) where
  attention_from-Respects : (row : Option AttentionRow) → Respects R (attention_from row)
  unfolding attention_from attention_from_row
  attention_from-Respects none = Respects-pure R-IsPreorder none
  attention_from-Respects (some r) =
      search (R-IsPreorder, Respects-bind, Respects-gets, Respects-pure, Respects-or_raise)

  pub get_attention-Respects : (key : String) → Respects R (get_attention key)
  unfolding get_attention
  get_attention-Respects key =
      Respects-bind R-IsPreorder _ _ (Respects-read_lock R-IsPreorder _) attention_from-Respects

module _ (sha256 : String → String) (format_time : ℕ → String) {R : Store → Store → Type 0}
    (R-IsPreorder : IsPreorder R)
    (write : (x : ActionInput) (at : ℕ) (key detail : String) (r : AttentionRow) (s : Store)
      → find (has_key x.dedupe_key) s.attention_items ≡ some r
      → is_resolved r.state ≡ false
      → R s
          (set_item x.dedupe_key (acted x at) (add_action (action_row x key detail at r) s))) where
  act_new-Respects :
      (x : ActionInput) (at : ℕ) (key detail : String) (r : AttentionRow) (known : Bool) (s : Store)
      → find (has_key x.dedupe_key) s.attention_items ≡ some r
      → R s (act_new sha256 format_time x at key detail r known s).1
  unfolding act_new
  act_new-Respects x at key detail r true s found = R-IsPreorder.same s
  act_new-Respects x at key detail r false s found =
      at-raise_if R-IsPreorder (is_resolved r.state) attention_resolved _ s λ live.
        at-insert_row_then R-IsPreorder (action_clashes (action_row x key detail at r))
          (add_action (action_row x key detail at r)) _ s λ _. write x at key detail r s found live

  act_row-Respects :
      (x : ActionInput) (at : ℕ) (detail : String) (r : AttentionRow) (s : Store)
      → find (has_key x.dedupe_key) s.attention_items ≡ some r
      → R s (act_row sha256 format_time x at detail r s).1
  unfolding act_row
  act_row-Respects x at detail r s found =
      at-raise_if R-IsPreorder (not (knows_operation x.operation_id s)) operation_not_found _ s λ _.
        at-raise_if R-IsPreorder (not (is_expected x.expected_generation r.generation))
          stale_attention _ s
          λ _.
            at-lift R-IsPreorder (json_object (action_material sha256 format_time x r)) _ s
              λ material.
                act_new-Respects x at ("sha256:" <> sha256 material.encoded) detail r
                  (any (has_action ("sha256:" <> sha256 material.encoded)) s.attention_actions) s
                  found

  act_body-Respects :
      (x : ActionInput) (at : ℕ) (detail : String)
      → Respects R (act_body sha256 format_time x at detail)
  unfolding act_body
  act_body-Respects x at detail = record {
    at = λ s.
        at-or_raise R-IsPreorder attention_not_found (find (has_key x.dedupe_key) s.attention_items)
          _ s λ r found. act_row-Respects x at detail r s found;
  }

  check_action-Respects :
      (x : ActionInput) (o : Datetime) → Respects R (check_action sha256 format_time x o)
  unfolding check_action
  check_action-Respects x o =
      search (R-IsPreorder, Respects-bind, Respects-lift, Respects-pure) depth 30

  ruleset action_rules = (
    Respects-bind, Respects-lift, Respects-raise_if, Respects-or_raise, Respects-write_transaction,
    check_action-Respects, act_body-Respects, get_attention-Respects,
  )

  apply_action-Respects :
      (x : ActionInput) (o : Datetime) → Respects R (apply_action sha256 format_time x o)
  unfolding apply_action
  apply_action-Respects x o = search (action_rules, R-IsPreorder) depth 30

  module _ (key actor : String) (expected : Option ℕ) (operation_id : Option String) where
    pub ack_attention-Respects :
        (o : Datetime)
        → Respects R (ack_attention sha256 format_time key actor expected operation_id o)
    unfolding ack_attention
    ack_attention-Respects o = search (action_rules, apply_action-Respects) depth 30

    pub snooze_attention-Respects :
        (until o : Datetime)
        → Respects R (snooze_attention sha256 format_time key actor expected operation_id until o)
    unfolding snooze_attention
    snooze_attention-Respects until o =
        search (action_rules, R-IsPreorder, apply_action-Respects) depth 30

    pub resolve_attention-Respects :
        (reason : String) (o : Datetime)
        → Respects R (resolve_attention sha256 format_time key actor expected operation_id reason o)
    unfolding resolve_attention
    resolve_attention-Respects reason o =
        search (action_rules, R-IsPreorder, apply_action-Respects) depth 30
