-- ===== src/Store/Status/Inbox.antt =====
-- The inbox behind a published status update (`publish_status_update` of
-- src/researchctl/runtime/store.py).
use research_agent_ops.Base.{
  ℕ, String, ◌≡◌, refl, Bool, true, false, Option, none, some, any, find, any-of_find, eq_iff,
  arith,
}
use research_agent_ops.Errors.{ok}
use research_agent_ops.Json.{Json}
use research_agent_ops.Exec.{◌>>◌, ◌>>=◌}
use research_agent_ops.Exec.Respects.{
  IsPreorder, Keep, Keep-IsPreorder, Respects, Respects-bind, Respects-lift, Respects-pure,
  Respects-or_raise, Respects-raise_if, Respects-gets, Respects-skip, at-bind_ok, at-bind_here,
}
use research_agent_ops.Store.Schema.{Store, StatusUpdate, StatusRow, OutboxRow, JsonText}
use research_agent_ops.Store.Transaction.{
  insert_row, Respects-write_transaction, Respects-read_lock, at-insert_row,
}
use research_agent_ops.Store.Attention.{has_update, Signal, upsert_attention}
use research_agent_ops.Store.Attention.Actions.{get_attention-Respects}
use research_agent_ops.Store.Attention.Consistency.{
  InboxWell, Keep-InboxWell-IsPreorder, add-InboxWell, upsert_attention-InboxWell,
}
use research_agent_ops.Store.Status.{
  validate_status_semantics, enqueue_event, insert_event_unless, event_dangles, add_outbox_event,
  update_clashes, add_update, get_status_update, get_outbox, signal_of, store_update, status_row,
  status_event, check_status_session, publish_body, published_status, check_update,
  publish_status_update,
}

store_update-InboxWell :
    (new : StatusRow) (row : Option StatusRow) → Respects (Keep InboxWell) (store_update new row)
unfolding store_update
store_update-InboxWell new none = record {
  at = λ s.
      at-insert_row Keep-InboxWell-IsPreorder (update_clashes new) (add_update new) s
        λ _. add-InboxWell new s;
}
store_update-InboxWell new (some r) = Respects-raise_if Keep-InboxWell-IsPreorder _ _

check_status_session-InboxWell :
    (project_id : String) (u : StatusUpdate)
    → Respects (Keep InboxWell) (check_status_session project_id u)
unfolding check_status_session
check_status_session-InboxWell project_id u =
    search (
      Keep-InboxWell-IsPreorder, Respects-bind, Respects-gets, Respects-or_raise, Respects-raise_if,
    )

-- The update is stored once this step has returned.
store_update-stored :
    (new : StatusRow) (row : Option StatusRow) (s : Store) (a : Unit {0})
    → find (has_update new.update_id) s.status_updates ≡ row
    → (store_update new row s).0 ≡ ok a
    → any (has_update new.update_id) (store_update new row s).1.status_updates ≡ true
unfolding store_update insert_row
store_update-stored new none s a found returned = ground (arith, eq_iff new.update_id new.update_id)
store_update-stored new (some r) s a found returned =
    ground (arith, any-of_find (has_update new.update_id) s.status_updates {x = r})

-- An inbox in order, and the update with this ID stored.
record InboxWith (id : String) (s : Store) : Type 0 where
  inbox : InboxWell s
  stored : any (has_update id) s.status_updates ≡ true

module _ (id : String) where
  Keep-InboxWith-IsPreorder : IsPreorder (Keep (InboxWith id))
  Keep-InboxWith-IsPreorder = Keep-IsPreorder (InboxWith id)

  insert_event_unless-InboxWith :
      (o : OutboxRow) (known : Bool) → Respects (Keep (InboxWith id)) (insert_event_unless o known)
  unfolding insert_event_unless
  insert_event_unless-InboxWith o true = Respects-skip Keep-InboxWith-IsPreorder
  insert_event_unless-InboxWith o false = record {
    at = λ s.
        at-insert_row Keep-InboxWith-IsPreorder (event_dangles o) (add_outbox_event o) s λ _ w.
          record {
            inbox = record { keyed = w.inbox.keyed; each = w.inbox.each };
            stored = w.stored;
          };
  }

  enqueue_event-InboxWith : (o : OutboxRow) → Respects (Keep (InboxWith id)) (enqueue_event o)
  unfolding enqueue_event
  enqueue_event-InboxWith o =
      search
        (Keep-InboxWith-IsPreorder, Respects-bind, Respects-gets, insert_event_unless-InboxWith)

module _ (casefold sha256 : String → String) (to_jsonable : StatusUpdate → Json) where
  signal_of-state :
      (project_id : String) (u : StatusUpdate) (s : Store)
      → (signal_of casefold sha256 to_jsonable project_id u s).1 ≡ s
  unfolding signal_of
  signal_of-state project_id u s = ground arith

  signal_of-update :
      (project_id : String) (u : StatusUpdate) (s : Store) (g : Signal)
      → (signal_of casefold sha256 to_jsonable project_id u s).0 ≡ ok g
      → g.update_id ≡ u.update_id
  unfolding signal_of
  signal_of-update project_id u s g returned = ground arith

  upsert-InboxWell :
      (project_id : String) (u : StatusUpdate) (s : Store)
      → InboxWith u.update_id s
      → InboxWell
          ((signal_of casefold sha256 to_jsonable project_id u >>= λ g. upsert_attention g) s).1
  upsert-InboxWell project_id u s w =
      at-bind_ok Keep-InboxWell-IsPreorder (signal_of casefold sha256 to_jsonable project_id u)
        upsert_attention s (rw (signal_of-state project_id u s) (λ v. v))
        (λ g returned. rw (signal_of-state project_id u s) (
          upsert_attention-InboxWell g s
            (rw (signal_of-update project_id u s g returned) w.stored)))
        w.inbox

  -- What follows once the update is stored.
  rest-InboxWell :
      (project_id : String) (u : StatusUpdate) (o : OutboxRow) (s : Store)
      → InboxWith u.update_id s
      → InboxWell
          ((enqueue_event o
              >> (signal_of casefold sha256 to_jsonable project_id u >>= upsert_attention))
            s).1
  rest-InboxWell project_id u o s w =
      let o_step = (enqueue_event-InboxWith u.update_id o).at s w in
      at-bind_here Keep-InboxWell-IsPreorder (enqueue_event o) _ s (λ _. o_step.inbox)
        (λ _ _. upsert-InboxWell project_id u (enqueue_event o s).1 o_step) w.inbox

  publish_body-InboxWell :
      (project_id : String) (u : StatusUpdate) (text : JsonText) (at : ℕ)
      → Respects (Keep InboxWell) (publish_body casefold sha256 to_jsonable project_id u text at)
  unfolding publish_body
  publish_body-InboxWell project_id u text at =
      Respects-bind Keep-InboxWell-IsPreorder (check_status_session project_id u) _
        (check_status_session-InboxWell project_id u)
        λ _. record {
          at = λ s w.
              let row = status_row casefold sha256 to_jsonable project_id u text.encoded at in
              let existing = find (has_update u.update_id) s.status_updates in
              at-bind_ok Keep-InboxWell-IsPreorder (store_update row existing) _ s
                ((store_update-InboxWell row existing).at s)
                (λ a returned inbox.
                  rest-InboxWell project_id u (status_event project_id u text at)
                    (store_update row existing s).1
                    (record {
                      inbox = inbox;
                      stored = store_update-stored row existing s a refl returned;
                    }))
                w;
        }

  ruleset method_rules = (
    Keep-InboxWell-IsPreorder, Respects-bind, Respects-lift, Respects-pure, Respects-or_raise,
    Respects-raise_if, Respects-gets, Respects-write_transaction, Respects-read_lock,
    get_attention-Respects,
  )

  published_status-InboxWell :
      (id : String) → Respects (Keep InboxWell) (published_status casefold sha256 to_jsonable id)
  unfolding published_status get_status_update get_outbox
  published_status-InboxWell id = search method_rules depth 60

  check_update-InboxWell :
      (project_id : String) (u : StatusUpdate)
      → Respects (Keep InboxWell) (check_update casefold sha256 to_jsonable project_id u)
  unfolding check_update validate_status_semantics
  check_update-InboxWell project_id u = search method_rules depth 60

  -- Whatever publish_status_update is called with, the inbox stays in order.
  pub publish_status_update-InboxWell :
      (project_id : String) (u : StatusUpdate)
      → Respects (Keep InboxWell) (publish_status_update casefold sha256 to_jsonable project_id u)
  unfolding publish_status_update
  publish_status_update-InboxWell project_id u =
      search
        (method_rules, check_update-InboxWell, publish_body-InboxWell, published_status-InboxWell)
        depth 30
