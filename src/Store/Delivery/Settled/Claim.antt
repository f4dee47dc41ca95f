-- ===== src/Store/Delivery/Settled/Claim.antt =====
-- A delivery that has ended, under `claim_linear_delivery` of
-- src/researchctl/runtime/store.py.
use research_agent_ops.Base.{
  ℕ, String, ◌≡◌, refl, false, Option, none, some, string_eq, arith, if-holds, leb,
}
use research_agent_ops.Exec.Respects.{Keep-IsPreorder, Respects}
use research_agent_ops.Store.Schema.{Store, Datetime, OutboxRow, ClaimRow, DeliveryStatusRow}
use research_agent_ops.Store.Transaction.{at-insert_row_then}
use research_agent_ops.Store.Replies.{new_status, status_clashes, add_status}
use research_agent_ops.Store.Delivery.{
  claim_linear_delivery, DeliveryTable, holds, delivery_outbox, expire_claims, selected, claim_of,
  claim_clashes, add_claim, ensure_status, claim_selected, claim_row, claim_body, check_claim,
}
use research_agent_ops.Store.Delivery.History.{keep_rules}
use research_agent_ops.Store.Delivery.Settled.{
  topic_of, Settled, Stays, requeued, fewer_claims, selected-other,
}

module _ (t : DeliveryTable) (r : OutboxRow) where
  ensure_status-Stays : (d : DeliveryStatusRow) (s : Store) → Stays t r s (ensure_status d s)
  ensure_status-Stays d s h =
      if-holds (Settled t r) (status_clashes d s) s (add_status d s) (λ _. h)
        (λ _. requeued t r s (add_status d s) refl refl h.unheld h)

  add_claim-Stays :
      (c : ClaimRow) (s : Store)
      → holds (topic_of t) r.outbox_id c ≡ false
      → Stays t r s (add_claim c s)
  add_claim-Stays c s other h =
      requeued t r s (add_claim c s) refl refl (ground (arith, h.unheld)) h

  claim_selected-Stays :
      (project_id claim_id : String) (at expires : ℕ) (row : Option OutboxRow) (s : Store)
      → selected project_id s ≡ row
      → Stays t r s (claim_selected project_id claim_id at expires row s).1
  unfolding claim_selected
  claim_selected-Stays project_id claim_id at expires none s e h = h
  claim_selected-Stays project_id claim_id at expires (some x) s e h =
      let c = claim_of project_id claim_id at expires x in
      at-insert_row_then (Keep-IsPreorder (Settled t r)) (claim_clashes c) (add_claim c) _ s
        (λ _ k.
          ensure_status-Stays (new_status x.topic x.outbox_id project_id at) (add_claim c s)
            (add_claim-Stays c s (selected-other project_id t r s h e) k))
        h

  pub delivery_outbox-Stays : (topic id : String) → Respects (Stays t r) (delivery_outbox topic id)
  unfolding delivery_outbox
  delivery_outbox-Stays topic id = search keep_rules

  claim_row-Stays :
      (project_id claim_id : String) (at expires : ℕ) (row : Option ClaimRow)
      → Respects (Stays t r) (claim_row project_id claim_id at expires row)
  unfolding claim_row
  claim_row-Stays project_id claim_id at expires none = record {
    at = λ s h.
        claim_selected-Stays project_id claim_id at expires _ (expire_claims at s) refl
          (fewer_claims t r (λ c. leb c.expires_at at) s h);
  }
  claim_row-Stays project_id claim_id at expires (some existing) =
      search (keep_rules, delivery_outbox-Stays)

  pub claim-Stays :
      (project_id claim_id : String) (o : Datetime) (lease : ℕ)
      → Respects (Stays t r) (claim_linear_delivery project_id claim_id o lease)
  unfolding claim_linear_delivery check_claim claim_body
  claim-Stays project_id claim_id o lease = search (keep_rules, claim_row-Stays) depth 30
