-- ===== src/Store/Delivery/Enqueue.antt =====
-- `enqueue_linear_projection`, `get_linear_projection_outbox` of src/researchctl/runtime/store.py.
use research_agent_ops.Base.{
  ℕ, String, Bool, ◌&&◌, ◌||◌, not, Option, none, some, ◌∷◌, ◌==◌, nat_eq, string_eq, find, any,
}
use research_agent_ops.Errors.{assertion_error, linear_projection_event_conflict}
use research_agent_ops.Json.{Json}
use research_agent_ops.Exec.{Exec, pure, lift, gets, or_raise, ◌>>=◌, ◌>>◌, raise_if}
use research_agent_ops.Store.Schema.{Store, Datetime, JsonText, OutboxRow, OutboxState}
use research_agent_ops.Store.Checks.{require_text, encode_time, json_object}
use research_agent_ops.Store.Transaction.{write_transaction, read_lock, insert_row}
use research_agent_ops.Store.Notifications.{has_outbox}
use research_agent_ops.Store.Replies.{new_status, status_clashes, add_status}

abbrev pub accepted_topic : String
accepted_topic = "linear.accepted-result.v1"

-- The arguments of `enqueue_linear_projection`.
pub record ProjectionInput : Type 0 where
  pub project_id : String
  pub event_id : String
  pub aggregate_id : String
  pub payload : Json

abbrev pub projection_row : ProjectionInput → JsonText → ℕ → OutboxRow
projection_row x payload at = record {
  outbox_id = x.event_id;
  project_id = x.project_id;
  topic = accepted_topic;
  aggregate_id = x.aggregate_id;
  payload_json = payload;
  created_at = at;
  state = OutboxState.pending;
}

-- INSERT INTO linear_projection_outbox: the primary key, and UNIQUE (topic, aggregate_id)
abbrev pub projection_clashes : OutboxRow → Store → Bool
projection_clashes r s =
    any (λ q. has_outbox r.outbox_id q || q.topic == r.topic && q.aggregate_id == r.aggregate_id)
      s.projection_outbox

abbrev pub add_projection : OutboxRow → Store → Store
add_projection r s = record s { projection_outbox = r ∷ s.projection_outbox }

abbrev pub same_event : ProjectionInput → JsonText → OutboxRow → Bool
same_event x payload r =
    r.project_id == x.project_id
    && (r.aggregate_id == x.aggregate_id && r.payload_json.encoded == payload.encoded)

-- The branch on the row with the event's ID.
unfoldable pub enqueue_row :
    ProjectionInput → JsonText → ℕ → Option OutboxRow → Exec Store (Unit {0})
unfolding insert_row
enqueue_row x payload at (some existing) =
    raise_if (not (same_event x payload existing)) linear_projection_event_conflict
enqueue_row x payload at none = do
  let r = projection_row x payload at
  insert_row (projection_clashes r) (add_projection r)
  let d = new_status accepted_topic x.event_id x.project_id at
  insert_row (status_clashes d) (add_status d)

unfoldable pub enqueue_body : ProjectionInput → JsonText → ℕ → Exec Store (Unit {0})
unfolding enqueue_row
enqueue_body x payload at = do
  existing ← gets (λ s. find (has_outbox x.event_id) s.projection_outbox)
  enqueue_row x payload at existing

unfoldable pub check_projection : ProjectionInput → Datetime → Exec Store (JsonText × ℕ)
check_projection x created_at = do
  lift (require_text x.project_id)
  lift (require_text x.event_id)
  lift (require_text x.aggregate_id)
  payload ← lift (json_object x.payload)
  at ← lift (encode_time created_at)
  pure (payload, at)

unfoldable pub get_linear_projection_outbox : String → Exec Store (Option OutboxRow)
unfolding read_lock
get_linear_projection_outbox id = read_lock (λ s. find (has_outbox id) s.projection_outbox)

unfoldable pub enqueue_linear_projection : ProjectionInput → Datetime → Exec Store OutboxRow
unfolding check_projection enqueue_body write_transaction get_linear_projection_outbox
enqueue_linear_projection x created_at = do
  checked ← check_projection x created_at
  write_transaction (enqueue_body x checked.0 checked.1)
  found ← get_linear_projection_outbox x.event_id
  or_raise assertion_error found
