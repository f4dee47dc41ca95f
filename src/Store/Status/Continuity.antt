-- ===== src/Store/Status/Continuity.antt =====
-- The attention items behind a published status update (`publish_status_update` of
-- src/researchctl/runtime/store.py).
use research_agent_ops.Base.{ℕ, String, ◌≡◌, refl, Bool, true, false, Option, none, some}
use research_agent_ops.Json.{Json}
use research_agent_ops.Exec.Respects.{
  Respects, Respects-bind, Respects-lift, Respects-pure, Respects-or_raise, Respects-raise_if,
  Respects-gets, Respects-skip,
}
use research_agent_ops.Store.Schema.{Store, StatusUpdate, StatusRow, OutboxRow, JsonText}
use research_agent_ops.Store.Transaction.{
  insert_row, Respects-write_transaction, Respects-read_lock, at-insert_row,
}
use research_agent_ops.Store.Attention.Continuity.{
  Goes, Goes-same, Goes-IsPreorder, upsert_attention-Goes,
}
use research_agent_ops.Store.Attention.Actions.{get_attention-Respects}
use research_agent_ops.Store.Status.{
  validate_status_semantics, enqueue_event, insert_event_unless, event_dangles, add_outbox_event,
  update_clashes, add_update, get_status_update, get_outbox, signal_of, store_update,
  check_status_session, publish_body, published_status, check_update, publish_status_update,
}

insert_row-Goes :
    (clashes : Store → Bool) (add : Store → Store)
    → ((s : Store) → (add s).attention_items ≡ s.attention_items)
    → Respects Goes (insert_row clashes add)
insert_row-Goes clashes add h = record {
  at = λ s. at-insert_row Goes-IsPreorder clashes add s (λ _. Goes-same s (add s) (h s));
}

insert_event_unless-Goes :
    (o : OutboxRow) (known : Bool) → Respects Goes (insert_event_unless o known)
unfolding insert_event_unless
insert_event_unless-Goes o true = Respects-skip Goes-IsPreorder
insert_event_unless-Goes o false =
    insert_row-Goes (event_dangles o) (add_outbox_event o) (λ s. refl)

enqueue_event-Goes : (o : OutboxRow) → Respects Goes (enqueue_event o)
unfolding enqueue_event
enqueue_event-Goes o =
    search (Goes-IsPreorder, Respects-bind, Respects-gets, insert_event_unless-Goes)

get_status_update-Goes : (id : String) → Respects Goes (get_status_update id)
unfolding get_status_update
get_status_update-Goes id = Respects-read_lock Goes-IsPreorder _

get_outbox-Goes : (id : String) → Respects Goes (get_outbox id)
unfolding get_outbox
get_outbox-Goes id = Respects-read_lock Goes-IsPreorder _

ruleset method_rules = (
  Goes-IsPreorder, Respects-bind, Respects-lift, Respects-pure, Respects-or_raise,
  Respects-raise_if, Respects-gets, Respects-write_transaction, enqueue_event-Goes,
  get_status_update-Goes, get_outbox-Goes, get_attention-Respects, upsert_attention-Goes,
)

validate_status_semantics-Goes : (u : StatusUpdate) → Respects Goes (validate_status_semantics u)
unfolding validate_status_semantics
validate_status_semantics-Goes u = search method_rules depth 30

store_update-Goes :
    (new : StatusRow) (row : Option StatusRow) → Respects Goes (store_update new row)
unfolding store_update
store_update-Goes new none = insert_row-Goes (update_clashes new) (add_update new) (λ s. refl)
store_update-Goes new (some r) = Respects-raise_if Goes-IsPreorder _ _

check_status_session-Goes :
    (project_id : String) (u : StatusUpdate) → Respects Goes (check_status_session project_id u)
unfolding check_status_session
check_status_session-Goes project_id u = search method_rules depth 30

module _ (casefold sha256 : String → String) (to_jsonable : StatusUpdate → Json) where
  signal_of-Goes :
      (project_id : String) (u : StatusUpdate)
      → Respects Goes (signal_of casefold sha256 to_jsonable project_id u)
  unfolding signal_of
  signal_of-Goes project_id u = search method_rules depth 30

  publish_body-Goes :
      (project_id : String) (u : StatusUpdate) (text : JsonText) (at : ℕ)
      → Respects Goes (publish_body casefold sha256 to_jsonable project_id u text at)
  unfolding publish_body
  publish_body-Goes project_id u text at =
      search (method_rules, check_status_session-Goes, store_update-Goes, signal_of-Goes) depth 40

  published_status-Goes :
      (id : String) → Respects Goes (published_status casefold sha256 to_jsonable id)
  unfolding published_status
  published_status-Goes id = search method_rules depth 60

  check_update-Goes :
      (project_id : String) (u : StatusUpdate)
      → Respects Goes (check_update casefold sha256 to_jsonable project_id u)
  unfolding check_update
  check_update-Goes project_id u = search (method_rules, validate_status_semantics-Goes) depth 30

  pub publish_status_update-Goes :
      (project_id : String) (u : StatusUpdate)
      → Respects Goes (publish_status_update casefold sha256 to_jsonable project_id u)
  unfolding publish_status_update
  publish_status_update-Goes project_id u =
      search (method_rules, check_update-Goes, publish_body-Goes, published_status-Goes) depth 30
