-- ===== src/Store/Delivery/Settled/History.antt =====
-- A delivery that has ended, under `finish_linear_delivery` and sequences of calls of the methods of
-- delivery of src/researchctl/runtime/store.py.
use research_agent_ops.Base.{
  ℕ, String, ◌≡◌, refl, false, Option, none, some, List, [], ◌∷◌, string_eq, find,
}
use research_agent_ops.Errors.{ok, linear_delivery_claim_not_found, value_error}
use research_agent_ops.Json.{Json, Fields}
use research_agent_ops.Exec.{◌>>◌}
use research_agent_ops.Exec.Respects.{
  Keep-IsPreorder, Respects, Respects-skip, at-or_raise, at-bind,
}
use research_agent_ops.Store.Schema.{Store, Datetime, OutboxRow, ClaimRow}
use research_agent_ops.Store.Delivery.{
  DeliveryTable, delivery_table, stored_state, set_delivery_state, count_attempt, release,
  has_claim, holds, optional_receipt, finish_claim, finish_delivery_body, finish_linear_delivery,
  delivery_outbox,
}
use research_agent_ops.Store.Delivery.Receipts.{insert_receipt-LeavesQueue}
use research_agent_ops.Store.Delivery.History.{
  Delivery, enqueue_, claim_, finish_, deliver, deliver_all, keep_rules,
}
use research_agent_ops.Store.Delivery.Settled.{
  topic_of, Settled, any-find, Stays, requeued, fewer_claims,
}
use research_agent_ops.Store.Delivery.Settled.Outcome.{set_state-Settled}
use research_agent_ops.Store.Delivery.Settled.Claim.{delivery_outbox-Stays, claim-Stays}
use research_agent_ops.Store.Delivery.Settled.Enqueue.{enqueue-Stays}

module _ (t : DeliveryTable) (r : OutboxRow) where
  count_attempt-Stays :
      (c : ClaimRow) (error_code : Option String) (at : ℕ) (s : Store)
      → Stays t r s (count_attempt c error_code at s)
  count_attempt-Stays c error_code at s h = requeued t r s _ refl refl h.unheld h

  release-Stays : (id : String) → Respects {A = Unit {0}} (Stays t r) (λ s. (ok tt, release id s))
  release-Stays id = record { at = λ s. fewer_claims t r (has_claim id) s }

  module _ (marker_json : Json → Option String) where
    optional_receipt-Stays :
        (c : ClaimRow) (receipt : Option Fields) (at : ℕ)
        → Respects (Stays t r) (optional_receipt marker_json c receipt at)
    unfolding optional_receipt
    optional_receipt-Stays c none at = Respects-skip (Keep-IsPreorder (Settled t r))
    optional_receipt-Stays c (some receipt) at = record {
      at = λ s h.
          let same =
            (insert_receipt-LeavesQueue marker_json c.project_id c.topic c.outbox_id receipt at).at
              s in
          requeued t r s _ same.same_projections same.same_replies (rw same.same_claims h.unheld) h;
    }

    -- The steps behind the outcome.
    finish_rest-Stays :
        (c : ClaimRow) (receipt : Option Fields) (at : ℕ)
        → Respects (Stays t r) (
            optional_receipt marker_json c receipt at
            >> ((λ (u : Store). (ok tt, release c.claim_id u))
                >> delivery_outbox c.topic c.outbox_id))
    finish_rest-Stays c receipt at =
        search (keep_rules, optional_receipt-Stays, release-Stays, delivery_outbox-Stays t r)

    set_outcome-Stays :
        (c : ClaimRow) (state : String) (error_code : Option String) (at : ℕ)
        (table : DeliveryTable) (s : Store)
        → delivery_table c.topic ≡ some table
        → holds (topic_of t) r.outbox_id c ≡ false
        → Stays t r s (
            count_attempt c error_code at
              (set_delivery_state table c.outbox_id (stored_state state) s))
    set_outcome-Stays c state error_code at table s e other h =
        count_attempt-Stays c error_code at _
          (set_state-Settled (stored_state state) r s c.topic c.outbox_id t table e other h)

    finish_claim-Stays :
        (c : ClaimRow) (state : String) (error_code : Option String) (receipt : Option Fields)
        (at : ℕ) (s : Store)
        → holds (topic_of t) r.outbox_id c ≡ false
        → Stays t r s (finish_claim marker_json c state error_code receipt at s).1
    unfolding finish_claim
    finish_claim-Stays c state error_code receipt at s other =
        at-or_raise (Keep-IsPreorder (Settled t r)) value_error (delivery_table c.topic) _ s
          λ table e.
            at-bind (Keep-IsPreorder (Settled t r))
              (λ u. (
                ok tt,
                count_attempt c error_code at
                    (set_delivery_state table c.outbox_id (stored_state state) u),
              ))
              _ s (set_outcome-Stays c state error_code at table s e other)
              (λ _. finish_rest-Stays c receipt at)

    finish_body-Stays :
        (claim_id state : String) (error_code : Option String) (receipt : Option Fields) (at : ℕ)
        → Respects
            (Stays t r)
            (finish_delivery_body marker_json claim_id state error_code receipt at)
    unfolding finish_delivery_body
    finish_body-Stays claim_id state error_code receipt at = record {
      at = λ s h.
          at-or_raise (Keep-IsPreorder (Settled t r)) linear_delivery_claim_not_found
            (find (has_claim claim_id) s.claims) _ s
            (λ c e. finish_claim-Stays c state error_code receipt at s (
              any-find (holds (topic_of t) r.outbox_id) (has_claim claim_id) s.claims {x = c} e
                h.unheld))
            h;
    }

    finish-Stays :
        (claim_id state : String) (error_code : Option String) (receipt : Option Fields)
        (o : Datetime)
        → Respects
            (Stays t r)
            (finish_linear_delivery marker_json claim_id state error_code receipt o)
    unfolding finish_linear_delivery
    finish-Stays claim_id state error_code receipt o =
        search (keep_rules, finish_body-Stays) depth 20

    deliver-Stays : (c : Delivery) → Respects (Stays t r) (deliver marker_json c)
    unfolding deliver
    deliver-Stays (enqueue_ x o) = search (keep_rules, enqueue-Stays t r)
    deliver-Stays (claim_ project_id claim_id o lease) = search (keep_rules, claim-Stays t r)
    deliver-Stays (finish_ claim_id state error_code receipt o) = search (keep_rules, finish-Stays)

    -- A row that is found under its ID in an outbox, where no row with that ID is pending and no lease
    -- is on it, stays as it is and unleased behind any sequence of calls that enqueue projections,
    -- claim deliveries and finish them, if each row has the topic of its outbox.
    pub deliver_all-Settled :
        (calls : List Delivery) (s : Store)
        → Settled t r s
        → Settled t r (deliver_all marker_json calls s)
    unfolding deliver_all
    deliver_all-Settled [] s h = h
    deliver_all-Settled (c ∷ calls) s h =
        deliver_all-Settled calls (deliver marker_json c s).1 ((deliver-Stays c).at s h)
