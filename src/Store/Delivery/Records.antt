-- ===== src/Store/Delivery/Records.antt =====
-- Deliveries as they are shown (`get_linear_delivery_status`, `list_linear_deliveries`,
-- `get_linear_delivery`, `_query_linear_deliveries`, `_linear_delivery_record_from_row`,
-- `get_linear_delivery_receipt` of src/researchctl/runtime/store.py).
pub mod Lineage
pub mod Shown
use research_agent_ops.Base.{
  ℕ, String, Bool, true, false, ◌&&◌, ◌||◌, not, Option, none, some, List, [], ◌∷◌, ◌++◌, ◌==◌,
  string_eq, ltb, if◌then◌else◌, find, select, sort_by, is_earlier_by, first, map,
}
use research_agent_ops.Errors.{ok, value_error}
use research_agent_ops.Json.{Fields}
use research_agent_ops.Exec.{Exec, pure, lift, or_raise, ◌>>=◌, ◌>>◌, raise_if}
use research_agent_ops.Store.Schema.{
  Store, Datetime, OutboxRow, OutboxState, ClaimRow, DeliveryStatusRow, ReceiptRow,
}
use research_agent_ops.Store.Checks.{require_text, encode_time}
use research_agent_ops.Store.Transaction.{read_lock}
use research_agent_ops.Store.Notifications.{has_status}
use research_agent_ops.Store.Replies.{reply_topic}
use research_agent_ops.Store.Listings.{is_given, is_limit, state_filter, in_state}
use research_agent_ops.Store.Delivery.{accepted_topic, delivery_table, holds, DeliveryClaim}
use research_agent_ops.Store.Delivery.Receipts.{has_delivery}
use research_agent_ops.Store.Delivery.Records.Lineage.{delivery_lineage}

pub get_linear_delivery_status : String → String → Exec Store (Option DeliveryStatusRow)
unfolding read_lock
get_linear_delivery_status topic outbox_id = do
  table ← or_raise value_error (delivery_table topic)
  read_lock λ s. find (has_status topic outbox_id) s.delivery_status

pub get_linear_delivery_receipt : String → String → Exec Store (Option ReceiptRow)
unfolding read_lock
get_linear_delivery_receipt topic outbox_id =
    read_lock λ s. find (has_delivery topic outbox_id) s.delivery_receipts

-- A LinearDeliveryRecord; its first fields are those of the outbox row.
pub record DeliveryRecord : Type 0 where
  pub outbox : OutboxRow
  pub status_updated_at : Option ℕ
  pub attempt_count : ℕ
  pub last_error_code : Option String
  pub last_claim_id : Option String
  pub active_claim : Option DeliveryClaim
  pub receipt : Option ReceiptRow
  pub lineage : Fields

-- The three LEFT JOINs. Topic and outbox ID are the key of each of these tables.
abbrev pub status_of : OutboxRow → Store → Option DeliveryStatusRow
status_of d s =
    find (λ q. has_status d.topic d.outbox_id q && q.project_id == d.project_id) s.delivery_status

abbrev pub active_claim_of : ℕ → OutboxRow → Store → Option ClaimRow
active_claim_of observed d s =
    find
      (λ c.
        holds d.topic d.outbox_id c && c.project_id == d.project_id && ltb observed c.expires_at)
      s.claims

abbrev pub receipt_of_row : OutboxRow → Store → Option ReceiptRow
receipt_of_row d s =
    find (λ r. has_delivery d.topic d.outbox_id r && r.project_id == d.project_id)
      s.delivery_receipts

abbrev pub shown_claim : OutboxRow → Option ClaimRow → Option DeliveryClaim
shown_claim d none = none
shown_claim d (some c) = some (record {
  claim_id = c.claim_id;
  outbox = d;
  claimed_at = c.claimed_at;
  expires_at = c.expires_at;
})

abbrev updated_at : Option DeliveryStatusRow → Option ℕ
updated_at none = none
updated_at (some q) = some q.updated_at

abbrev attempts : Option DeliveryStatusRow → ℕ
attempts none = 0
attempts (some q) = q.attempt_count

abbrev last_error : Option DeliveryStatusRow → Option String
last_error none = none
last_error (some q) = q.last_error_code

abbrev last_claim : Option DeliveryStatusRow → Option String
last_claim none = none
last_claim (some q) = q.last_claim_id

-- ORDER BY created_at DESC, outbox_id DESC
abbrev pub newest_before : OutboxRow → OutboxRow → Bool
newest_before a b = is_earlier_by (λ r. r.created_at) (λ r. r.outbox_id) b a

abbrev pub is_asked : String → Option String → Option OutboxState → Option String → OutboxRow → Bool
is_asked project_id topic state outbox_id d =
    d.project_id == project_id
    && is_given (λ t. d.topic == t) topic
    && in_state state d
    && is_given (λ i. d.outbox_id == i) outbox_id

-- The rows of `deliveries` that the WHERE clause keeps.
abbrev pub asked_rows :
    String → Option String → Option OutboxState → Option String → Store → List OutboxRow
asked_rows project_id topic state outbox_id s =
    select (is_asked project_id topic state outbox_id) (s.projection_outbox ++ s.reply_outbox)

-- `_LINEAR_DELIVERY_TOPICS`
abbrev pub is_delivery_topic : String → Bool
is_delivery_topic topic = topic == accepted_topic || topic == reply_topic

module _ (marker_fields : String → Fields) where
  -- `_linear_delivery_record_from_row`
  unfoldable pub delivery_record : ℕ → Store → OutboxRow → DeliveryRecord
  unfolding delivery_lineage
  delivery_record observed s d =
      let status = status_of d s in
      let receipt = receipt_of_row d s in
      record {
        outbox = d;
        status_updated_at = updated_at status;
        attempt_count = attempts status;
        last_error_code = last_error status;
        last_claim_id = last_claim status;
        active_claim = shown_claim d (active_claim_of observed d s);
        receipt = receipt;
        lineage = delivery_lineage marker_fields d receipt;
      }

  -- `_query_linear_deliveries`; the caller passes the time that `observed_at or datetime.now(UTC)` gives
  unfoldable pub query_linear_deliveries :
      String
      → Option String
      → Option OutboxState
      → Option String
      → ℕ
      → Datetime
      → Exec Store (List DeliveryRecord)
  unfolding read_lock delivery_record sort_by first
  query_linear_deliveries project_id topic state outbox_id limit observed_at = do
    observed ← lift (encode_time observed_at)
    read_lock λ s.
        map (delivery_record observed s)
          (first limit (sort_by newest_before (asked_rows project_id topic state outbox_id s)))

  unfoldable pub list_linear_deliveries :
      String → Option String → Option String → ℕ → Datetime → Exec Store (List DeliveryRecord)
  unfolding query_linear_deliveries require_text
  list_linear_deliveries project_id topic state limit observed_at = do
    lift (require_text project_id)
    raise_if (not (is_given is_delivery_topic topic)) value_error
    wanted ← lift (state_filter state)
    raise_if (not (is_limit limit)) value_error
    query_linear_deliveries project_id topic wanted none limit observed_at

  -- `records[0] if records else None`
  abbrev first_record : List DeliveryRecord → Option DeliveryRecord
  first_record [] = none
  first_record (r ∷ records) = some r

  unfoldable pub get_linear_delivery :
      String → String → String → Datetime → Exec Store (Option DeliveryRecord)
  unfolding query_linear_deliveries require_text
  get_linear_delivery project_id topic outbox_id observed_at = do
    lift (require_text project_id)
    lift (require_text outbox_id)
    raise_if (not (is_delivery_topic topic)) value_error
    records ← query_linear_deliveries project_id (some topic) none (some outbox_id) 1 observed_at
    pure (first_record records)
