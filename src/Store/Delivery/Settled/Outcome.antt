-- ===== src/Store/Delivery/Settled/Outcome.antt =====
-- A delivery that has ended, under the outcome of another one (`finish_linear_delivery` of
-- src/researchctl/runtime/store.py).
use research_agent_ops.Base.{
  String, ◌≡◌, refl, ◌∙◌, true, false, ◌&&◌, some, List, ◌==◌, string_eq, find, any, update, All,
  update-All, find-update_other, eq_iff, arith,
}
use research_agent_ops.Store.Schema.{Store, OutboxRow, OutboxState}
use research_agent_ops.Store.Replies.{reply_topic}
use research_agent_ops.Store.Notifications.{has_outbox}
use research_agent_ops.Store.Delivery.{
  accepted_topic, DeliveryTable, projection_table, reply_table, delivery_table, with_state,
  set_delivery_state,
}
use research_agent_ops.Store.Delivery.Settled.{
  topic_of, Settled, is_open, HasTopic, any-update_shut,
}

-- ## How an outcome is stored
module _ (id j : String) (apart : (j == id) ≡ false) (state : OutboxState)
    (xs : List OutboxRow) where
  id_apart : (y : OutboxRow) → has_outbox j y ≡ true → has_outbox id y ≡ false
  id_apart y h = ground (arith, eq_iff y.outbox_id j, eq_iff y.outbox_id id, eq_iff j id)

  find-set_state :
      find (has_outbox id) (update (has_outbox j) (with_state state) xs) ≡ find (has_outbox id) xs
  find-set_state =
      find-update_other (has_outbox id) (has_outbox j) (with_state state) xs
        λ y h. (id_apart y h, id_apart y h)

  set_state-shut :
      any (is_open id) xs ≡ false
      → any (is_open id) (update (has_outbox j) (with_state state) xs) ≡ false
  set_state-shut =
      any-update_shut (is_open id) (has_outbox j) (with_state state) xs
        λ y h. rw (id_apart y h) refl

update-HasTopic :
    (topic id : String) (state : OutboxState) (xs : List OutboxRow)
    → All (HasTopic topic) xs
    → All (HasTopic topic) (update (has_outbox id) (with_state state) xs)
update-HasTopic topic id state xs =
    update-All (HasTopic topic) (has_outbox id) (with_state state) xs (λ x _ h. h)

module _ (state : OutboxState) (r : OutboxRow) (s : Store) (topic j : String) where
  -- The outcome of a delivery of the same table is that of another row.
  row_apart :
      (own : String)
      → (topic == own) ≡ true
      → (topic == own && j == r.outbox_id) ≡ false
      → (j == r.outbox_id) ≡ false
  row_apart own same other = ground arith

  pub set_state-Settled :
      (t table : DeliveryTable)
      → delivery_table topic ≡ some table
      → (topic == topic_of t && j == r.outbox_id) ≡ false
      → Settled t r s
      → Settled t r (set_delivery_state table j state s)
  set_state-Settled projection_table projection_table e other h =
      let same : (topic == accepted_topic) ≡ true = ground arith in
      let apart = row_apart accepted_topic same other in
      record {
        stored = find-set_state r.outbox_id j apart state s.projection_outbox ∙ h.stored;
        shut = set_state-shut r.outbox_id j apart state s.projection_outbox h.shut;
        unheld = h.unheld;
        projections = update-HasTopic accepted_topic j state s.projection_outbox h.projections;
        replies = h.replies;
      }
  set_state-Settled reply_table reply_table e other h =
      let same : (topic == reply_topic) ≡ true = ground arith in
      let apart = row_apart reply_topic same other in
      record {
        stored = find-set_state r.outbox_id j apart state s.reply_outbox ∙ h.stored;
        shut = set_state-shut r.outbox_id j apart state s.reply_outbox h.shut;
        unheld = h.unheld;
        projections = h.projections;
        replies = update-HasTopic reply_topic j state s.reply_outbox h.replies;
      }
  set_state-Settled projection_table reply_table e other h = record {
    stored = h.stored;
    shut = h.shut;
    unheld = h.unheld;
    projections = h.projections;
    replies = update-HasTopic reply_topic j state s.reply_outbox h.replies;
  }
  set_state-Settled reply_table projection_table e other h = record {
    stored = h.stored;
    shut = h.shut;
    unheld = h.unheld;
    projections = update-HasTopic accepted_topic j state s.projection_outbox h.projections;
    replies = h.replies;
  }
