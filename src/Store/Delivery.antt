-- ===== src/Store/Delivery.antt =====
-- Delivery to Linear (`enqueue_linear_projection`, `claim_linear_delivery`,
-- `finish_linear_delivery`, `_delivery_table`, `_delivery_outbox`,
-- `_insert_linear_delivery_receipt` of src/researchctl/runtime/store.py): events wait in two
-- outboxes, a worker leases the oldest one that nobody holds, and reports how it ended.
mod Enqueue
pub mod Receipts
pub mod Exclusion
pub mod History
pub mod Settled
pub mod Records
pub mod Ended
mod Samples
unfoldable pub use Enqueue.*
use Prim.Native.String.{compare}
use text.Mathlib.Text.{is_le}
use research_agent_ops.Base.{
  sort_by, is_earlier_by, ℕ, ◌+◌, ◌*◌, String, Bool, true, false, ◌&&◌, ◌||◌, not, Option, none,
  some, List, [], ◌∷◌, ◌++◌, ◌==◌, nat_eq, string_eq, ltb, leb, if◌then◌else◌, find, any, update,
  select, delete,
}
use research_agent_ops.Errors.{
  Result, ok, err, value_error, assertion_error, runtime_store_corrupt,
  linear_projection_event_conflict, linear_delivery_claim_conflict, linear_delivery_claim_not_found,
}
use research_agent_ops.Json.{Json, Fields}
use research_agent_ops.Exec.{Exec, pure, raise, lift, gets, or_raise, ◌>>=◌, ◌>>◌, raise_if, skip}
use research_agent_ops.Store.Schema.{
  Store, Datetime, JsonText, OutboxRow, OutboxState, ClaimRow, DeliveryStatusRow,
}
use research_agent_ops.Store.Checks.{require_text, encode_time, json_object}
use research_agent_ops.Store.Transaction.{write_transaction, read_lock, insert_row}
use research_agent_ops.Store.Notifications.{has_outbox, has_status}
use research_agent_ops.Store.Replies.{reply_topic, new_status, status_clashes, add_status}
use research_agent_ops.Store.Delivery.Receipts.{insert_receipt}

-- WHERE claim_id = ?
abbrev pub has_claim : String → ClaimRow → Bool
has_claim id c = c.claim_id == id

-- WHERE topic = ? AND outbox_id = ?
abbrev pub holds : String → String → ClaimRow → Bool
holds topic outbox_id c = c.topic == topic && c.outbox_id == outbox_id

pub data DeliveryTable : Type 0 where
  projection_table reply_table : DeliveryTable

-- `_delivery_table`; `none` where it raises ValueError
abbrev pub delivery_table : String → Option DeliveryTable
delivery_table topic =
    if topic == accepted_topic
    then some projection_table
    else if topic == reply_topic
    then some reply_table
    else none

abbrev pub rows_of : DeliveryTable → Store → List OutboxRow
rows_of projection_table s = s.projection_outbox
rows_of reply_table s = s.reply_outbox

-- `_delivery_outbox`
pub delivery_outbox : String → String → Exec Store OutboxRow
delivery_outbox topic outbox_id = do
  table ← or_raise value_error (delivery_table topic)
  row ← gets (λ s. find (has_outbox outbox_id) (rows_of table s))
  or_raise runtime_store_corrupt row

-- A LinearDeliveryClaim.
pub record DeliveryClaim : Type 0 where
  pub claim_id : String
  pub outbox : OutboxRow
  pub claimed_at : ℕ
  pub expires_at : ℕ

-- DELETE ... WHERE expires_at <= ?
abbrev pub expire_claims : ℕ → Store → Store
expire_claims at s = record s { claims = delete (λ c. leb c.expires_at at) s.claims }

-- ORDER BY created_at, outbox_id
abbrev pub is_queued_before : OutboxRow → OutboxRow → Bool
is_queued_before = is_earlier_by (λ r. r.created_at) (λ r. r.outbox_id)

abbrev pub is_waiting : OutboxState → Bool
is_waiting OutboxState.pending = true
is_waiting _ = false

-- WHERE project_id = ? AND state = 'pending'
abbrev pub is_candidate : String → OutboxRow → Bool
is_candidate project_id r = r.project_id == project_id && is_waiting r.state

unfoldable pub candidates : String → Store → List OutboxRow
unfolding sort_by
candidates project_id s = sort_by is_queued_before (
    select (is_candidate project_id) s.projection_outbox
    ++ select (is_candidate project_id) s.reply_outbox)

abbrev pub is_unclaimed : List ClaimRow → OutboxRow → Bool
is_unclaimed claims r = not (any (holds r.topic r.outbox_id) claims)

-- The first candidate of the loop that no claim holds.
unfoldable pub selected : String → Store → Option OutboxRow
unfolding candidates
selected project_id s = find (is_unclaimed s.claims) (candidates project_id s)

abbrev pub claim_of : String → String → ℕ → ℕ → OutboxRow → ClaimRow
claim_of project_id claim_id at expires r = record {
  topic = r.topic;
  outbox_id = r.outbox_id;
  project_id = project_id;
  claim_id = claim_id;
  claimed_at = at;
  expires_at = expires;
}

-- INSERT INTO linear_delivery_claims: the primary key, and UNIQUE claim_id
abbrev pub claim_clashes : ClaimRow → Store → Bool
claim_clashes c s = any (λ d. holds c.topic c.outbox_id d || has_claim c.claim_id d) s.claims

abbrev pub add_claim : ClaimRow → Store → Store
add_claim c s = record s { claims = c ∷ s.claims }

-- INSERT OR IGNORE INTO linear_delivery_status
abbrev pub ensure_status : DeliveryStatusRow → Store → Store
ensure_status d s = if status_clashes d s then s else add_status d s

claim_selected : String → String → ℕ → ℕ → Option OutboxRow → Exec Store (Option DeliveryClaim)
unfolding insert_row
claim_selected project_id claim_id at expires none = pure none
claim_selected project_id claim_id at expires (some r) = do
  let c = claim_of project_id claim_id at expires r
  insert_row (claim_clashes c) (add_claim c)
  λ s. (
    ok (some (record { claim_id = claim_id; outbox = r; claimed_at = at; expires_at = expires })),
    ensure_status (new_status r.topic r.outbox_id project_id at) s,
  )

-- The branch on the row with the claim's ID.
claim_row : String → String → ℕ → ℕ → Option ClaimRow → Exec Store (Option DeliveryClaim)
unfolding claim_selected delivery_outbox selected
claim_row project_id claim_id at expires (some existing) = do
  raise_if (not (existing.project_id == project_id)) linear_delivery_claim_conflict
  outbox ← delivery_outbox existing.topic existing.outbox_id
  pure (
      some (record {
        claim_id = claim_id;
        outbox = outbox;
        claimed_at = existing.claimed_at;
        expires_at = existing.expires_at;
      }))
claim_row project_id claim_id at expires none = do
  λ s. (ok tt, expire_claims at s)
  r ← gets (selected project_id)
  claim_selected project_id claim_id at expires r

claim_body : String → String → ℕ → ℕ → Exec Store (Option DeliveryClaim)
unfolding claim_row
claim_body project_id claim_id at expires = do
  existing ← gets (λ s. find (has_claim claim_id) s.claims)
  claim_row project_id claim_id at expires existing

check_claim : String → String → Datetime → ℕ → Exec Store ℕ
check_claim project_id claim_id claimed_at lease_seconds = do
  lift (require_text project_id)
  lift (require_text claim_id)
  raise_if (not (leb 1 lease_seconds && leb lease_seconds 3600)) value_error
  lift (encode_time claimed_at)

-- Times count microseconds.
unfoldable pub claim_linear_delivery :
    String → String → Datetime → ℕ → Exec Store (Option DeliveryClaim)
unfolding check_claim claim_body write_transaction
claim_linear_delivery project_id claim_id claimed_at lease_seconds = do
  at ← check_claim project_id claim_id claimed_at lease_seconds
  write_transaction (claim_body project_id claim_id at (at + lease_seconds * 1000000))

abbrev pub is_outcome : String → Bool
is_outcome state = state == "retryable" || (state == "delivered" || state == "dead_letter")

-- `stored_state`
abbrev pub stored_state : String → OutboxState
stored_state state =
    if state == "retryable"
    then OutboxState.pending
    else if state == "delivered"
    then OutboxState.delivered
    else OutboxState.dead_letter

abbrev pub with_state : OutboxState → OutboxRow → OutboxRow
with_state state r = record r { state = state }

abbrev pub set_delivery_state : DeliveryTable → String → OutboxState → Store → Store
set_delivery_state projection_table id state s = record s {
  projection_outbox = update (has_outbox id) (with_state state) s.projection_outbox;
}
set_delivery_state reply_table id state s = record s {
  reply_outbox = update (has_outbox id) (with_state state) s.reply_outbox;
}

abbrev pub attempted : Option String → String → ℕ → DeliveryStatusRow → DeliveryStatusRow
attempted error_code claim_id at d = record d {
  attempt_count = d.attempt_count + 1;
  last_error_code = error_code;
  last_claim_id = some claim_id;
  updated_at = at;
}

abbrev pub count_attempt : ClaimRow → Option String → ℕ → Store → Store
count_attempt c error_code at s = record s {
  delivery_status =
      update (has_status c.topic c.outbox_id) (attempted error_code c.claim_id at)
        s.delivery_status;
}

abbrev pub release : String → Store → Store
release claim_id s = record s { claims = delete (has_claim claim_id) s.claims }

abbrev pub has_receipt : Option Fields → Bool
has_receipt none = false
has_receipt (some r) = true

-- `!=` of two truth values
abbrev pub differ : Bool → Bool → Bool
differ a b = if a then not b else b

-- `SessionNotificationSourceMarker.model_validate` and the canonical text of the result; `none`
-- where it raises ValidationError.
module _ (marker_json : Json → Option String) where
  optional_receipt : ClaimRow → Option Fields → ℕ → Exec Store (Unit {0})
  unfolding insert_receipt
  optional_receipt c none at = skip
  optional_receipt c (some receipt) at =
      insert_receipt marker_json c.project_id c.topic c.outbox_id receipt at

  finish_claim : ClaimRow → String → Option String → Option Fields → ℕ → Exec Store OutboxRow
  unfolding optional_receipt delivery_outbox
  finish_claim c state error_code receipt at = do
    table ← or_raise value_error (delivery_table c.topic)
    λ s. (
      ok tt,
      count_attempt c error_code at (set_delivery_state table c.outbox_id (stored_state state) s),
    )
    optional_receipt c receipt at
    λ s. (ok tt, release c.claim_id s)
    delivery_outbox c.topic c.outbox_id

  finish_delivery_body : String → String → Option String → Option Fields → ℕ → Exec Store OutboxRow
  unfolding finish_claim
  finish_delivery_body claim_id state error_code receipt at = do
    found ← gets (λ s. find (has_claim claim_id) s.claims)
    c ← or_raise linear_delivery_claim_not_found found
    finish_claim c state error_code receipt at

  unfoldable pub finish_linear_delivery :
      String → String → Option String → Option Fields → Datetime → Exec Store OutboxRow
  unfolding finish_delivery_body write_transaction
  finish_linear_delivery claim_id state error_code receipt finished_at = do
    raise_if (not (is_outcome state)) value_error
    raise_if (differ (state == "delivered") (has_receipt receipt)) value_error
    at ← lift (encode_time finished_at)
    write_transaction (finish_delivery_body claim_id state error_code receipt at)
