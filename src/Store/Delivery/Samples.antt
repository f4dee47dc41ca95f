-- ===== src/Store/Delivery/Samples.antt =====
-- A delivery queue at a concrete input: tests, and an instance of each theorem with hypotheses.
use research_agent_ops.Base.{
  inl, arith, ◌++◌, ℕ, String, true, ◌≡◌, refl, ◌≢◌, Option, none, some, List, [], ◌∷◌, map,
}
use research_agent_ops.Errors.{Result, ok, err, integrity_error}
use research_agent_ops.Json.{object, end}
use research_agent_ops.Store.Schema.{Store, Datetime, empty_store, OutboxRow, OutboxState}
use research_agent_ops.Store.Checks.{require_text, encode_time}
use research_agent_ops.Store.Delivery.{
  DeliveryClaim, accepted_topic, claim_linear_delivery, finish_linear_delivery, selected,
}
use research_agent_ops.Store.Delivery.Exclusion.{LeasesOnce}
use research_agent_ops.Store.Delivery.History.{
  Delivery, claim_, finish_, deliver_all, leases_stay_exclusive,
}
use research_agent_ops.Store.Delivery.{projection_table}
use research_agent_ops.Store.Delivery.Settled.{Settled}
use research_agent_ops.Store.Delivery.Settled.History.{deliver_all-Settled}
use research_agent_ops.Store.Delivery.Records.{
  DeliveryRecord, delivery_record, list_linear_deliveries,
}
use research_agent_ops.Store.Delivery.Records.Shown.{
  IsAnswered, IsAskedFor, ListsNewest, lists_deliveries,
}

abbrev noon : Datetime
noon = record { instant = 43200000000; aware = true }

abbrev later : Datetime
later = record { instant = 43200000001; aware = true }

abbrev event : String → ℕ → OutboxRow
event id at = record {
  outbox_id = id;
  project_id = "p";
  topic = accepted_topic;
  aggregate_id = id;
  payload_json = record { encoded = "{}"; value = object end };
  created_at = at;
  state = OutboxState.pending;
}

-- two events, of which the older one is leased
abbrev queue : Store
queue = record empty_store {
  projection_outbox = event "e2" 2 ∷ event "e1" 1 ∷ [];
  claims =
      record {
        topic = accepted_topic;
        outbox_id = "e1";
        project_id = "p";
        claim_id = "c1";
        claimed_at = 43100000000;
        expires_at = 43200000001;
      }
      ∷ [];
}

abbrev claimed_id : Result (Option DeliveryClaim) → String
claimed_id (ok (some d)) = d.outbox.outbox_id
claimed_id _ = ""

-- While the lease on the older event runs, the other one is next.
claims_next : claimed_id (claim_linear_delivery "p" "c2" noon 60 queue).0 ≡ "e2"
unfolding claim_linear_delivery require_text encode_time selected
claims_next = refl

-- A lease that has expired is free again.
claims_expired : claimed_id (claim_linear_delivery "p" "c2" later 60 queue).0 ≡ "e1"
unfolding claim_linear_delivery require_text encode_time selected
claims_expired = refl

LeasesOnce-queue : LeasesOnce queue
LeasesOnce-queue = record { exclusive = (refl, tt) }

-- One worker delivers the second event while the other one gives up.
abbrev shifts : List Delivery
shifts =
    claim_ "p" "c2" noon 60
    ∷ finish_ "c2" "dead_letter" (some "gone") none later
    ∷ finish_ "c1" "retryable" (some "timeout") none later
    ∷ []

-- the first event is pending again, the second one is not, and no lease is left
shifts_end :
    map (λ (r : OutboxRow). r.state) (deliver_all (λ v. none) shifts queue).projection_outbox
    ≡ OutboxState.dead_letter ∷ OutboxState.pending ∷ []
unfolding deliver_all claim_linear_delivery finish_linear_delivery require_text encode_time selected
shifts_end = refl

leases_stay_exclusive_example :
    LeasesOnce (deliver_all (λ v. none) shifts queue)
    × ((claim_linear_delivery "p" "c3" later 60 (deliver_all (λ v. none) shifts queue)).0
        ≢ err integrity_error)
leases_stay_exclusive_example =
    leases_stay_exclusive (λ v. none) shifts "p" "c3" later 60 queue LeasesOnce-queue

-- An event that has been delivered, ahead of one that has not.
abbrev done_event : OutboxRow
done_event = record (event "e1" 1) { state = OutboxState.delivered }

abbrev half_done : Store
half_done = record empty_store { projection_outbox = event "e2" 2 ∷ done_event ∷ [] }

half_done-Settled : Settled projection_table done_event half_done
half_done-Settled = record {
  stored = refl;
  shut = refl;
  unheld = refl;
  projections = (refl, (refl, tt));
  replies = tt;
}

deliver_all-Settled_example :
    Settled projection_table done_event (deliver_all (λ v. none) shifts half_done)
deliver_all-Settled_example =
    deliver_all-Settled projection_table done_event (λ v. none) shifts half_done half_done-Settled

-- One row of the two that are pending is shown: the newer one.
newest_shown :
    (list_linear_deliveries (λ t. end) "p" none (some "pending") 1 noon queue).0
    ≡ ok (delivery_record (λ t. end) 43200000000 queue (event "e2" 2) ∷ [])
unfolding list_linear_deliveries delivery_record encode_time
newest_shown = refl

queue-IsAnswered : IsAnswered "p" none 1 noon queue
unfolding require_text
queue-IsAnswered = record {
  opened = refl;
  named = refl;
  topical = inl refl;
  at_least = omega arith;
  at_most = omega arith;
  aware = refl;
}

lists_deliveries_example :
    (records : List DeliveryRecord) × (list_linear_deliveries
        (λ t. end)
        "p"
        none
        (some "pending")
        1
        noon
        queue
      ≡ (ok records, queue))
    × ListsNewest records
        (IsAskedFor "p" none (some OutboxState.pending))
        (queue.projection_outbox ++ queue.reply_outbox)
        1
lists_deliveries_example =
    lists_deliveries (λ t. end) "p" none (some OutboxState.pending) 1 noon queue queue-IsAnswered
