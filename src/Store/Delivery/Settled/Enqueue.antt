-- ===== src/Store/Delivery/Settled/Enqueue.antt =====
-- A delivery that has ended, under `enqueue_linear_projection` of
-- src/researchctl/runtime/store.py.
use research_agent_ops.Base.{
  ℕ, ◌≡◌, refl, false, ◌&&◌, Option, none, some, ◌==◌, string_eq, find, any, any-or_left, subst,
  any-of_find, Bool-cases, inl, inr, eq_iff,
}
use research_agent_ops.Exec.Respects.{Keep-IsPreorder, Respects}
use research_agent_ops.Store.Schema.{Store, Datetime, JsonText, OutboxRow, DeliveryStatusRow}
use research_agent_ops.Store.Transaction.{insert_row, at-insert_row}
use research_agent_ops.Store.Notifications.{has_outbox}
use research_agent_ops.Store.Replies.{status_clashes, add_status}
use research_agent_ops.Store.Delivery.{
  ProjectionInput, projection_row, projection_clashes, add_projection, accepted_topic, enqueue_row,
  enqueue_body, check_projection, get_linear_projection_outbox, enqueue_linear_projection,
  DeliveryTable, projection_table, reply_table,
}
use research_agent_ops.Store.Delivery.History.{keep_rules}
use research_agent_ops.Store.Delivery.Settled.{Settled, Stays, requeued}

-- A new row has another ID.
module _ (x : ProjectionInput) (payload : JsonText) (at : ℕ) (r : OutboxRow) (s : Store)
    (clear : projection_clashes (projection_row x payload at) s ≡ false) where
  new_apart :
      find (has_outbox r.outbox_id) s.projection_outbox ≡ some r
      → (x.event_id == r.outbox_id) ≡ false
  new_apart h = elim (Bool-cases (x.event_id == r.outbox_id)) [
    | inl e ↦
        let same : x.event_id ≡ r.outbox_id = (eq_iff x.event_id r.outbox_id).0 e in
        let free : any (has_outbox x.event_id) s.projection_outbox ≡ false =
          any-or_left (has_outbox x.event_id)
            (λ q. q.topic == accepted_topic && q.aggregate_id == x.aggregate_id) s.projection_outbox
            clear in
        let taken = any-of_find (has_outbox r.outbox_id) s.projection_outbox {x = r} h in
        let untaken : any (has_outbox r.outbox_id) s.projection_outbox ≡ false =
          subst (λ i. any (has_outbox i) s.projection_outbox ≡ false) same free in
        absurd (cc (taken, untaken))
    | inr e ↦ e
  ]

  add_projection-Settled :
      (t : DeliveryTable)
      → Settled t r s
      → Settled t r (add_projection (projection_row x payload at) s)
  add_projection-Settled projection_table h =
      let apart = new_apart h.stored in
      record {
        stored = rw apart h.stored;
        shut = rw apart h.shut;
        unheld = h.unheld;
        projections = (refl, h.projections);
        replies = h.replies;
      }
  add_projection-Settled reply_table h = record {
    stored = h.stored;
    shut = h.shut;
    unheld = h.unheld;
    projections = (refl, h.projections);
    replies = h.replies;
  }

module _ (t : DeliveryTable) (r : OutboxRow) where
  insert_projection-Stays :
      (x : ProjectionInput) (payload : JsonText) (at : ℕ)
      → Respects (Stays t r) (
          insert_row
            (projection_clashes (projection_row x payload at))
            (add_projection (projection_row x payload at)))
  insert_projection-Stays x payload at = record {
    at = λ s.
        at-insert_row (Keep-IsPreorder (Settled t r))
          (projection_clashes (projection_row x payload at))
          (add_projection (projection_row x payload at)) s
          (λ clear. add_projection-Settled x payload at r s clear t);
  }

  insert_status-Stays :
      (d : DeliveryStatusRow) → Respects (Stays t r) (insert_row (status_clashes d) (add_status d))
  insert_status-Stays d = record {
    at = λ s.
        at-insert_row (Keep-IsPreorder (Settled t r)) (status_clashes d) (add_status d) s
          (λ _ h. requeued t r s (add_status d s) refl refl h.unheld h);
  }

  enqueue_row-Stays :
      (x : ProjectionInput) (payload : JsonText) (at : ℕ) (row : Option OutboxRow)
      → Respects (Stays t r) (enqueue_row x payload at row)
  unfolding enqueue_row
  enqueue_row-Stays x payload at (some existing) = search keep_rules
  enqueue_row-Stays x payload at none =
      search (keep_rules, insert_projection-Stays, insert_status-Stays)

  pub enqueue-Stays :
      (x : ProjectionInput) (o : Datetime) → Respects (Stays t r) (enqueue_linear_projection x o)
  unfolding enqueue_linear_projection check_projection enqueue_body get_linear_projection_outbox
  enqueue-Stays x o = search (keep_rules, enqueue_row-Stays) depth 30
