-- ===== src/Store/Status/Replay/Connection.antt =====
-- Steps of `publish_status_update` that leave the store, or the flags of its connection, as they were
-- (src/researchctl/runtime/store.py).
use research_agent_ops.Base.{
  String, ◌≡◌, refl, Bool, true, false, ◌∙◌, Option, none, some, string_eq,
}
use research_agent_ops.Errors.{ok}
use research_agent_ops.Exec.Respects.{
  IsPreorder, Respects, Respects-bind, Respects-lift, Respects-pure, Respects-or_raise,
  Respects-raise_if, Respects-gets, Respects-skip, Respects-if,
}
use research_agent_ops.Exec.{skip}
use research_agent_ops.Store.Schema.{Store, StatusUpdate, StatusRow, OutboxRow, AttentionRow}
use research_agent_ops.Store.Transaction.{at-insert_row, insert_row}
use research_agent_ops.Store.Attention.{
  Signal, upsert_row, upsert_attention, is_outdated, refreshed, new_item, set_item, item_clashes,
  add_item,
}
use research_agent_ops.Store.Status.{
  enqueue_event, insert_event_unless, event_dangles, add_outbox_event, update_clashes, add_update,
  store_update, check_status_session,
}

-- The store is as it was.
pub record SameStore (s t : Store) : Type 0 where
  pub same : t ≡ s

pub SameStore-IsPreorder : IsPreorder SameStore
SameStore-IsPreorder = record {
  same = λ s. record { same = refl };
  then_ = λ s t u h k. record { same = k.same ∙ h.same };
}

-- The flags of the connection are as they were.
pub record SameConnection (s t : Store) : Type 0 where
  pub closed : t.closed ≡ s.closed
  pub busy : t.writer_busy ≡ s.writer_busy

pub SameConnection-IsPreorder : IsPreorder SameConnection
SameConnection-IsPreorder = record {
  same = λ s. record { closed = refl; busy = refl };
  then_ = λ s t u h k. record { closed = k.closed ∙ h.closed; busy = k.busy ∙ h.busy };
}

insert_row-SameConnection :
    (clashes : Store → Bool) (add : Store → Store)
    → ((s : Store) → SameConnection s (add s))
    → Respects SameConnection (insert_row clashes add)
insert_row-SameConnection clashes add h = record {
  at = λ s. at-insert_row SameConnection-IsPreorder clashes add s (λ _. h s);
}

pub store_update-SameConnection :
    (new : StatusRow) (row : Option StatusRow) → Respects SameConnection (store_update new row)
unfolding store_update
store_update-SameConnection new none =
    insert_row-SameConnection (update_clashes new) (add_update new)
      (λ s. record { closed = refl; busy = refl })
store_update-SameConnection new (some r) = Respects-raise_if SameConnection-IsPreorder _ _

insert_event_unless-SameConnection :
    (o : OutboxRow) (known : Bool) → Respects SameConnection (insert_event_unless o known)
unfolding insert_event_unless
insert_event_unless-SameConnection o true = Respects-skip SameConnection-IsPreorder
insert_event_unless-SameConnection o false =
    insert_row-SameConnection (event_dangles o) (add_outbox_event o)
      (λ s. record { closed = refl; busy = refl })

upsert_row-SameConnection :
    (g : Signal) (row : Option AttentionRow) → Respects SameConnection (upsert_row g row)
unfolding upsert_row
upsert_row-SameConnection g none =
    insert_row-SameConnection (item_clashes (new_item g)) (add_item (new_item g))
      (λ s. record { closed = refl; busy = refl })
upsert_row-SameConnection g (some r) =
    Respects-if SameConnection-IsPreorder (is_outdated g r) skip
      (λ s. (ok tt, set_item g.dedupe_key (refreshed g r) s))
      (Respects-skip SameConnection-IsPreorder)
      (record { at = λ s. record { closed = refl; busy = refl } })

pub ruleset connection_rules = (
  SameConnection-IsPreorder, Respects-bind, Respects-lift, Respects-pure, Respects-or_raise,
  Respects-raise_if, Respects-gets,
)

pub enqueue_event-SameConnection : (o : OutboxRow) → Respects SameConnection (enqueue_event o)
unfolding enqueue_event
enqueue_event-SameConnection o = search (connection_rules, insert_event_unless-SameConnection)

pub upsert_attention-SameConnection : (g : Signal) → Respects SameConnection (upsert_attention g)
unfolding upsert_attention
upsert_attention-SameConnection g = search (connection_rules, upsert_row-SameConnection)

pub check_status_session-SameConnection :
    (project_id : String) (u : StatusUpdate)
    → Respects SameConnection (check_status_session project_id u)
unfolding check_status_session
check_status_session-SameConnection project_id u = search connection_rules depth 30
