-- ===== src/Store/Delivery/History.antt =====
-- Any sequence of calls of the methods of delivery, failing or not.
use research_agent_ops.Base.{
  ℕ, String, ◌≡◌, ◌≢◌, refl, Bool, Option, none, some, List, [], ◌∷◌, string_eq,
}
use research_agent_ops.Json.{Json, Fields}
use research_agent_ops.Errors.{ok, err, integrity_error}
use research_agent_ops.Exec.{Exec, pure, ◌>>◌}
use research_agent_ops.Exec.Respects.{
  Keep, Keep-IsPreorder, Respects, Respects-bind, Respects-pure, Respects-lift, Respects-raise_if,
  Respects-or_raise, Respects-gets, Respects-skip,
}
use research_agent_ops.Store.Schema.{Store, Datetime, JsonText, OutboxRow, ClaimRow}
use research_agent_ops.Store.Transaction.{
  Respects-write_transaction, Respects-read_lock, insert_row, at-insert_row,
}
use research_agent_ops.Store.Delivery.{
  ProjectionInput, projection_row, projection_clashes, add_projection, accepted_topic, enqueue_row,
  enqueue_body, check_projection, get_linear_projection_outbox, enqueue_linear_projection,
  claim_linear_delivery, DeliveryTable, projection_table, reply_table, stored_state,
  set_delivery_state, count_attempt, release, has_claim, optional_receipt, finish_claim,
  finish_delivery_body, finish_linear_delivery, delivery_outbox,
}
use research_agent_ops.Store.Replies.{new_status, status_clashes, add_status}
use research_agent_ops.Store.Delivery.Receipts.{insert_receipt-LeavesQueue}
use research_agent_ops.Store.Delivery.Exclusion.{
  LeasesOnce, delete-IsExclusive, delivery_outbox-Upholds, claim-LeasesOnce,
}

pub ruleset keep_rules = (
  Keep-IsPreorder, Respects-bind, Respects-lift, Respects-pure, Respects-raise_if, Respects-gets,
  Respects-or_raise, Respects-skip, Respects-write_transaction, Respects-read_lock,
)

-- An insertion into another table.
insert-LeasesOnce :
    (clashes : Store → Bool) (add : Store → Store)
    → ((s : Store) → (add s).claims ≡ s.claims)
    → Respects (Keep LeasesOnce) (insert_row clashes add)
insert-LeasesOnce clashes add same = record {
  at = λ s.
      at-insert_row (Keep-IsPreorder LeasesOnce) clashes add s
        (λ _ h. record { exclusive = rw (same s) h.exclusive });
}

enqueue_row-LeasesOnce :
    (x : ProjectionInput) (payload : JsonText) (at : ℕ) (row : Option OutboxRow)
    → Respects (Keep LeasesOnce) (enqueue_row x payload at row)
unfolding enqueue_row
enqueue_row-LeasesOnce x payload at (some existing) =
    Respects-raise_if (Keep-IsPreorder LeasesOnce) _ _
enqueue_row-LeasesOnce x payload at none =
    let r = projection_row x payload at in
    let d = new_status accepted_topic x.event_id x.project_id at in
    Respects-bind (Keep-IsPreorder LeasesOnce) _ _
      (insert-LeasesOnce (projection_clashes r) (add_projection r) (λ s. refl))
      λ _. insert-LeasesOnce (status_clashes d) (add_status d) (λ s. refl)

enqueue-LeasesOnce :
    (x : ProjectionInput) (o : Datetime)
    → Respects (Keep LeasesOnce) (enqueue_linear_projection x o)
unfolding enqueue_linear_projection check_projection enqueue_body get_linear_projection_outbox
enqueue-LeasesOnce x o = search (keep_rules, enqueue_row-LeasesOnce) depth 30

set_state-LeasesOnce :
    (table : DeliveryTable) (c : ClaimRow) (state : String) (error_code : Option String) (at : ℕ)
    → Respects {A = Unit {0}} (Keep LeasesOnce) (λ s. (
      ok tt,
      count_attempt c error_code at (set_delivery_state table c.outbox_id (stored_state state) s),
    ))
set_state-LeasesOnce projection_table c state error_code at = record {
  at = λ s h. record { exclusive = h.exclusive };
}
set_state-LeasesOnce reply_table c state error_code at = record {
  at = λ s h. record { exclusive = h.exclusive };
}

release-LeasesOnce :
    (id : String) → Respects {A = Unit {0}} (Keep LeasesOnce) (λ s. (ok tt, release id s))
release-LeasesOnce id = record {
  at = λ s h. record { exclusive = delete-IsExclusive (has_claim id) s.claims h.exclusive };
}

delivery_outbox-LeasesOnce :
    (topic id : String) → Respects (Keep LeasesOnce) (delivery_outbox topic id)
delivery_outbox-LeasesOnce topic id = record {
  at = λ s h. ((delivery_outbox-Upholds topic id).at s h).0;
}

claim-keeps :
    (project_id claim_id : String) (o : Datetime) (lease : ℕ)
    → Respects (Keep LeasesOnce) (claim_linear_delivery project_id claim_id o lease)
claim-keeps project_id claim_id o lease = record {
  at = λ s h. (claim-LeasesOnce project_id claim_id o lease s h).0;
}

pub data Delivery : Type 0 where
  enqueue_ : ProjectionInput → Datetime → Delivery
  claim_ : String → String → Datetime → ℕ → Delivery
  finish_ : String → String → Option String → Option Fields → Datetime → Delivery

module _ (marker_json : Json → Option String) where
  optional_receipt-LeasesOnce :
      (c : ClaimRow) (receipt : Option Fields) (at : ℕ)
      → Respects (Keep LeasesOnce) (optional_receipt marker_json c receipt at)
  unfolding optional_receipt
  optional_receipt-LeasesOnce c none at = Respects-skip (Keep-IsPreorder LeasesOnce)
  optional_receipt-LeasesOnce c (some receipt) at = record {
    at = λ s h. record {
      exclusive =
          rw
            ((insert_receipt-LeavesQueue marker_json c.project_id c.topic c.outbox_id receipt at).at
              s).same_claims
            h.exclusive;
    };
  }

  finish-LeasesOnce :
      (claim_id state : String) (error_code : Option String) (receipt : Option Fields)
      (o : Datetime)
      → Respects
          (Keep LeasesOnce)
          (finish_linear_delivery marker_json claim_id state error_code receipt o)
  unfolding finish_linear_delivery finish_delivery_body finish_claim
  finish-LeasesOnce claim_id state error_code receipt o =
      search
        (
          keep_rules, set_state-LeasesOnce, optional_receipt-LeasesOnce, release-LeasesOnce,
          delivery_outbox-LeasesOnce,
        )
        depth 40

  unfoldable pub deliver : Delivery → Exec Store (Unit {0})
  deliver (enqueue_ x o) = enqueue_linear_projection x o >> pure tt
  deliver (claim_ project_id claim_id o lease) =
      claim_linear_delivery project_id claim_id o lease >> pure tt
  deliver (finish_ claim_id state error_code receipt o) =
      finish_linear_delivery marker_json claim_id state error_code receipt o >> pure tt

  unfoldable pub deliver_all : List Delivery → Store → Store
  unfolding deliver
  deliver_all [] s = s
  deliver_all (c ∷ calls) s = deliver_all calls (deliver c s).1

  deliver-LeasesOnce : (c : Delivery) → Respects (Keep LeasesOnce) (deliver c)
  unfolding deliver
  deliver-LeasesOnce (enqueue_ x o) = search (keep_rules, enqueue-LeasesOnce)
  deliver-LeasesOnce (claim_ project_id claim_id o lease) = search (keep_rules, claim-keeps)
  deliver-LeasesOnce (finish_ claim_id state error_code receipt o) =
      search (keep_rules, finish-LeasesOnce)

  deliver_all-LeasesOnce :
      (calls : List Delivery) (s : Store) → LeasesOnce s → LeasesOnce (deliver_all calls s)
  unfolding deliver_all
  deliver_all-LeasesOnce [] s h = h
  deliver_all-LeasesOnce (c ∷ calls) s h =
      deliver_all-LeasesOnce calls (deliver c s).1 ((deliver-LeasesOnce c).at s h)

  -- If no two leases are on the same delivery or under the same claim ID, then this holds behind any
  -- sequence of calls that enqueue projections, claim deliveries and finish them, and a
  -- claim_linear_delivery that comes next raises no IntegrityError.
  pub leases_stay_exclusive :
      (calls : List Delivery) (project_id claim_id : String) (o : Datetime) (lease : ℕ) (s : Store)
      → LeasesOnce s
      → LeasesOnce (deliver_all calls s)
        × ((claim_linear_delivery project_id claim_id o lease (deliver_all calls s)).0
            ≢ err integrity_error)
  leases_stay_exclusive calls project_id claim_id o lease s h =
      let once = deliver_all-LeasesOnce calls s h in
      (once, (claim-LeasesOnce project_id claim_id o lease (deliver_all calls s) once).1)
