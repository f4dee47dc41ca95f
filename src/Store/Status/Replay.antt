-- ===== src/Store/Status/Replay.antt =====
-- A status update that is published again (`publish_status_update` of
-- src/researchctl/runtime/store.py).
mod Connection
use Connection.*
use research_agent_ops.Base.{
  ℕ, String, ◌≡◌, refl, Bool, true, false, ◌∙◌, sym, subst, Option, none, some, find, string_eq,
  arith, ap,
}
use research_agent_ops.Errors.{ok, Result}
use research_agent_ops.Json.{Json}
use research_agent_ops.Exec.Respects.{
  IsPreorder, Respects, Respects-bind, Respects-lift, Respects-pure, Respects-or_raise,
  Respects-raise_if, Respects-gets, Respects-skip, Respects-if,
}
use research_agent_ops.Exec.{skip, ◌>>=◌, ◌>>◌}
use research_agent_ops.Exec.Inversion.{bind-ok, bind_step}
use research_agent_ops.Store.Schema.{
  Store, StatusUpdate, StatusRow, OutboxRow, JsonText, AttentionRow,
}
use research_agent_ops.Store.Transaction.{
  Respects-read_lock, at-insert_row, insert_row, write_transaction, write_transaction-ok,
  write_transaction_runs,
}
use research_agent_ops.Store.Attention.{
  has_update, Signal, upsert_row, upsert_attention, is_outdated, refreshed, new_item, set_item,
  item_clashes, add_item,
}
use research_agent_ops.Store.Status.{
  validate_status_semantics, get_status_update, get_outbox, PublishedStatus, enqueue_event,
  insert_event_unless, event_dangles, add_outbox_event, update_clashes, add_update, event_known,
  signal_of, store_update, status_row, status_event, check_status_session, publish_body,
  published_status, check_update, publish_status_update,
}
use research_agent_ops.Store.Attention.Actions.{get_attention-Respects}
use research_agent_ops.Store.Status.Settled.{
  HasSession, HasUpdate, IsPublished, check_status_session-HasSession, store_update-HasUpdate,
  enqueue_event-known, upsert_attention-HasItem, check_again, store_again, enqueue_again,
  upsert_again, carry_session, carry_update,
}

module _ (casefold sha256 : String → String) (to_jsonable : StatusUpdate → Json) where
  -- The item's key and the rest do not depend on the store.
  signal_of-anywhere :
      (project_id : String) (u : StatusUpdate) (s : Store) (g : Signal) {v : Store}
      → signal_of casefold sha256 to_jsonable project_id u s ≡ (ok g, v)
      → (v ≡ s) × ((t : Store) → signal_of casefold sha256 to_jsonable project_id u t ≡ (ok g, t))
  unfolding signal_of
  signal_of-anywhere project_id u s g {v} h = (ground arith, λ t. ground arith)

  signal_of-SameConnection :
      (project_id : String) (u : StatusUpdate)
      → Respects SameConnection (signal_of casefold sha256 to_jsonable project_id u)
  unfolding signal_of
  signal_of-SameConnection project_id u = search connection_rules depth 30

  module _ (project_id : String) (u : StatusUpdate) (text : JsonText) (at : ℕ) where
    -- the row and the event of the update
    abbrev row_of : StatusRow
    row_of = status_row casefold sha256 to_jsonable project_id u text.encoded at

    abbrev event_of : OutboxRow
    event_of = status_event project_id u text at

    signalled-IsPublished :
        (s : Store) {a : Unit {0}} {t : Store}
        → HasSession project_id u s
        → HasUpdate row_of s
        → event_known event_of s ≡ true
        → (signal_of casefold sha256 to_jsonable project_id u >>= upsert_attention) s ≡ (ok a, t)
        → (g : Signal) × (signal_of casefold sha256 to_jsonable project_id u t ≡ (ok g, t))
          × IsPublished project_id u row_of event_of g t
    signalled-IsPublished s {a} {t} session update event h =
        let (g, e, k) =
          bind-ok (signal_of casefold sha256 to_jsonable project_id u) upsert_attention s h in
        let (stays, again) = signal_of-anywhere project_id u s g e in
        let here : upsert_attention g s ≡ (ok a, t) =
          subst (λ v. upsert_attention g v ≡ (ok a, t)) stays k in
        let (item, leaves) = upsert_attention-HasItem g s here in
        (
          g,
          again t,
          record {
            session = carry_session project_id u s t leaves.same_sessions session;
            update = carry_update row_of s t leaves.same_updates update;
            event = rw leaves.same_events event;
            item = item;
          },
        )

    stored-IsPublished :
        (s : Store) {a : Unit {0}} {t : Store}
        → HasSession project_id u s
        → HasUpdate row_of s
        → (enqueue_event event_of
              >> (signal_of casefold sha256 to_jsonable project_id u >>= upsert_attention))
            s
          ≡ (ok a, t)
        → (g : Signal) × (signal_of casefold sha256 to_jsonable project_id u t ≡ (ok g, t))
          × IsPublished project_id u row_of event_of g t
    stored-IsPublished s session update h =
        let (_, e, k) = bind-ok (enqueue_event event_of) _ s h in
        let (known, same_sessions, same_updates) = enqueue_event-known event_of s e in
        signalled-IsPublished (enqueue_event event_of s).1
          (carry_session project_id u s (enqueue_event event_of s).1 same_sessions session)
          (carry_update row_of s (enqueue_event event_of s).1 same_updates update) known k

    publish_body-IsPublished :
        (s : Store) {a : Unit {0}} {t : Store}
        → publish_body casefold sha256 to_jsonable project_id u text at s ≡ (ok a, t)
        → (g : Signal) × (signal_of casefold sha256 to_jsonable project_id u t ≡ (ok g, t))
          × IsPublished project_id u row_of event_of g t
    unfolding publish_body
    publish_body-IsPublished s {a} {t} h =
        let (_, e, k) = bind-ok (check_status_session project_id u) _ s h in
        let (stays, session) = check_status_session-HasSession project_id u s e in
        let here : (store_update row_of (find (has_update u.update_id) s.status_updates)
                >> (enqueue_event event_of
                    >> (signal_of casefold sha256 to_jsonable project_id u >>= upsert_attention)))
              s
            ≡ (ok a, t) =
          subst
            (λ v.
              (store_update row_of (find (has_update u.update_id) v.status_updates)
                  >> (enqueue_event event_of
                      >> (signal_of casefold sha256 to_jsonable project_id u >>= upsert_attention)))
                v
              ≡ (ok a, t))
            stays k in
        let (_, e', k') =
          bind-ok (store_update row_of (find (has_update u.update_id) s.status_updates)) _ s here in
        let (update, same_sessions) =
          store_update-HasUpdate row_of (find (has_update u.update_id) s.status_updates) s refl
            e' in
        stored-IsPublished
          (store_update row_of (find (has_update u.update_id) s.status_updates) s).1
          (carry_session project_id u s _ same_sessions session) update k'

    publish_body_again :
        (g : Signal) (t : Store)
        → signal_of casefold sha256 to_jsonable project_id u t ≡ (ok g, t)
        → IsPublished project_id u row_of event_of g t
        → publish_body casefold sha256 to_jsonable project_id u text at t ≡ (ok tt, t)
    unfolding publish_body
    publish_body_again g t signalled p =
        bind_step (check_status_session project_id u) _ t (check_again project_id u t p.session)
        ∙ bind_step (store_update row_of (find (has_update u.update_id) t.status_updates)) _ t
            (store_again row_of t p.update)
        ∙ bind_step (enqueue_event event_of) _ t (enqueue_again event_of t p.event)
        ∙ bind_step (signal_of casefold sha256 to_jsonable project_id u) upsert_attention t
            signalled
        ∙ upsert_again g t p.item

    -- The flags of the connection.
    publish_body-SameConnection :
        Respects SameConnection (publish_body casefold sha256 to_jsonable project_id u text at)
    unfolding publish_body
    publish_body-SameConnection =
        search
          (
            connection_rules, store_update-SameConnection, enqueue_event-SameConnection,
            upsert_attention-SameConnection, check_status_session-SameConnection,
            signal_of-SameConnection,
          )
          depth 40

  check_update-anywhere :
      (project_id : String) (u : StatusUpdate) (s : Store) (c : JsonText × ℕ) {v : Store}
      → check_update casefold sha256 to_jsonable project_id u s ≡ (ok c, v)
      → (v ≡ s)
        × ((t : Store) → check_update casefold sha256 to_jsonable project_id u t ≡ (ok c, t))
  unfolding check_update validate_status_semantics
  check_update-anywhere project_id u s c h = (ground arith, λ t. ground arith)

  published_status-SameStore :
      (id : String) → Respects SameStore (published_status casefold sha256 to_jsonable id)
  unfolding published_status get_status_update get_outbox
  published_status-SameStore id =
      search
        (
          SameStore-IsPreorder, Respects-bind, Respects-lift, Respects-pure, Respects-or_raise,
          Respects-read_lock, get_attention-Respects,
        )
        depth 60

  module _ (project_id : String) (u : StatusUpdate) where
    transaction_again :
        (text : JsonText) (at : ℕ) (s t : Store) {a : Unit {0}}
        → write_transaction (publish_body casefold sha256 to_jsonable project_id u text at) s
          ≡ (ok a, t)
        → write_transaction (publish_body casefold sha256 to_jsonable project_id u text at) t
          ≡ (ok tt, t)
    transaction_again text at s t {a} h =
        let (opened, idle, ran) =
          write_transaction-ok (publish_body casefold sha256 to_jsonable project_id u text at) s
            h in
        let (g, signalled, p) = publish_body-IsPublished project_id u text at s ran in
        let connection =
          subst (SameConnection s) (ap (λ (r : Result (Unit {0}) × Store). r.1) ran)
            ((publish_body-SameConnection project_id u text at).at s) in
        write_transaction_runs (publish_body casefold sha256 to_jsonable project_id u text at) t
          (ok tt) (connection.closed ∙ opened) (connection.busy ∙ idle)
          (publish_body_again project_id u text at g t signalled p)

    written_again :
        (text : JsonText) (at : ℕ) (s : Store) {a : Unit {0}} {w : Store} {r : PublishedStatus}
        {t : Store}
        → write_transaction (publish_body casefold sha256 to_jsonable project_id u text at) s
          ≡ (ok a, w)
        → published_status casefold sha256 to_jsonable u.update_id w ≡ (ok r, t)
        → (write_transaction (publish_body casefold sha256 to_jsonable project_id u text at)
              >> published_status casefold sha256 to_jsonable u.update_id)
            t
          ≡ (ok r, t)
    written_again text at s {a} {w} {r} {t} wrote read =
        let same : t ≡ w =
          sym (ap (λ (x : Result PublishedStatus × Store). x.1) read)
          ∙ ((published_status-SameStore u.update_id).at w).same in
        subst
          (λ v.
            (write_transaction (publish_body casefold sha256 to_jsonable project_id u text at)
                >> published_status casefold sha256 to_jsonable u.update_id)
              v
            ≡ (ok r, t))
          (sym same)
          (bind_step
              (write_transaction (publish_body casefold sha256 to_jsonable project_id u text at))
              (λ _. published_status casefold sha256 to_jsonable u.update_id) w
              (transaction_again text at s w wrote)
            ∙ read)

    -- If publish_status_update returns, then publishing the same update again in the store that it
    -- leaves returns the same stored update, event and attention item, and the store is unchanged.
    pub publish_again :
        (s : Store) {r : PublishedStatus} {t : Store}
        → publish_status_update casefold sha256 to_jsonable project_id u s ≡ (ok r, t)
        → publish_status_update casefold sha256 to_jsonable project_id u t ≡ (ok r, t)
    unfolding publish_status_update
    publish_again s {r} {t} h =
        let (c, checked, rest) =
          bind-ok (check_update casefold sha256 to_jsonable project_id u) _ s h in
        let (stays, check) = check_update-anywhere project_id u s c checked in
        let from_s =
          subst
            (λ v.
              (write_transaction (publish_body casefold sha256 to_jsonable project_id u c.0 c.1)
                  >> published_status casefold sha256 to_jsonable u.update_id)
                v
              ≡ (ok r, t))
            stays rest in
        let (_, wrote, read) =
          bind-ok
            (write_transaction (publish_body casefold sha256 to_jsonable project_id u c.0 c.1)) _ s
            from_s in
        bind_step (check_update casefold sha256 to_jsonable project_id u) _ t (check t)
        ∙ written_again c.0 c.1 s wrote read
