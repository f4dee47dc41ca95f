-- ===== src/Store/Status.antt =====
-- Status updates (`publish_status_update`, `_validate_status_semantics`, `get_status_update`,
-- `get_outbox`, `_published_status`, `attention_dedupe_key` and the private functions that it uses,
-- of src/researchctl/runtime/store.py): one transaction stores the update, enqueues its event, and
-- brings the attention item up to date.
mod Rows
pub mod Continuity
pub mod Inbox
pub mod Settled
pub mod Replay
pub mod History
mod Samples
unfoldable pub use Rows.*
use Prim.Native.Char.{code}
use Prim.Native.String.{◌++◌ as ◌<>◌}
use research_agent_ops.Base.{
  ℕ, String, Bool, true, false, ◌&&◌, ◌||◌, not, Option, none, some, List, [], ◌∷◌, ◌==◌, string_eq,
  if◌then◌else◌, find, any, option_beq,
}
use research_agent_ops.Errors.{
  Result, ok, err, invalid_status_update, status_session_not_found, status_session_mismatch,
  status_update_conflict, runtime_store_corrupt, value_error,
}
use research_agent_ops.Json.{Json, encode, object, array, string, int, null, field, end}
use research_agent_ops.Exec.{Exec, pure, lift, gets, or_raise, ◌>>=◌, ◌>>◌, raise_if, skip}
use research_agent_ops.Store.Schema.{
  Store, JsonText, StatusUpdate, StatusKind, running, blocked, needs_input, ready_for_review,
  StatusRow, OutboxRow, OutboxState, RuntimeSession, DecisionRequest,
}
use research_agent_ops.Store.Checks.{require_text, encode_time, is_space}
use research_agent_ops.Store.Transaction.{write_transaction, read_lock, insert_row}
use research_agent_ops.Store.Sessions.{has_session}
use research_agent_ops.Store.Notifications.{has_outbox}
use research_agent_ops.Store.Attention.{
  has_update, Signal, upsert_attention, AttentionItem, get_attention, optional_text,
}

-- `str.casefold`, `hashlib.sha256`, and the JSON value that `to_jsonable` makes of an update.
module _ (casefold sha256 : String → String) (to_jsonable : StatusUpdate → Json) where
  pub normalize_identity : Option String → String
  unfolding words_from join_words
  normalize_identity none = join_words (words_from "" (casefold ""))
  normalize_identity (some value) = join_words (words_from "" (casefold value))

  -- `_attention_descriptor`: kind, identity and priority
  unfoldable pub attention_descriptor : StatusUpdate → String × String × ℕ
  unfolding normalize_identity
  attention_descriptor u = elim u.decision_needed [
    | some d ↦ ("needs_decision", normalize_identity (some d.question), 10)
    | none ↦ elim u.status [
      | blocked ↦ blocked_descriptor (normalize_identity u.blocker_category)
      | ready_for_review ↦ ("needs_review", "review", 30)
      | needs_input ↦ ("needs_input", "input", 10)
      | running ↦ ("running", "running", 60)
    ]
  ]

  -- `"sha256:" + hashlib.sha256(canonical_json_bytes(payload)).hexdigest()`
  pub canonical_digest : Json → Result String
  unfolding encode
  canonical_digest v = elim (encode v) [
    | none ↦ err value_error
    | some s ↦ ok ("sha256:" <> sha256 s)
  ]

  abbrev pub key_payload : String → StatusUpdate → String × String × ℕ → Json
  key_payload project_id u d = object (
      field "version" (int 1) (
        field "project_id" (string project_id) (
          field "task_id" (string u.task_id) (
            field "session_id" (string u.session_id)
              (field "kind" (string d.0) (field "identity" (string d.1) end))))))

  unfoldable pub attention_dedupe_key : String → StatusUpdate → Result String
  unfolding canonical_digest attention_descriptor
  attention_dedupe_key project_id u =
      canonical_digest (key_payload project_id u (attention_descriptor u))

  abbrev pub evidence_payload : StatusUpdate → Json
  evidence_payload u = object (
      field "status" (string (kind_text u.status)) (
        field "summary" (string u.summary) (
          field "evidence" (array u.evidence) (
            field "blocker_category" (optional_text u.blocker_category) (
              field "blocker_detail" (optional_text u.blocker_detail) (
                field "decision_needed" (elim u.decision_needed [ none ↦ null | some d ↦ d.dumped ])
                  (field "suggested_next_action" (optional_text u.suggested_next_action) end)))))))

  -- `_attention_evidence_digest`
  unfoldable pub attention_evidence_digest : StatusUpdate → Result String
  unfolding canonical_digest
  attention_evidence_digest u = canonical_digest (evidence_payload u)

  -- What `_upsert_attention` computes before it reads the item.
  pub signal_of : String → StatusUpdate → Exec Store Signal
  signal_of project_id u = do
    key ← lift (attention_dedupe_key project_id u)
    digest ← lift (attention_evidence_digest u)
    at ← lift (encode_time u.observed_at)
    let d = attention_descriptor u
    pure (record {
      dedupe_key = key;
      project_id = project_id;
      task_id = u.task_id;
      session_id = u.session_id;
      kind = d.0;
      identity = d.1;
      priority = d.2;
      evidence_digest = digest;
      update_id = u.update_id;
      observed_at = at;
    })

  -- `payload_json`
  unfoldable pub update_text : StatusUpdate → Result JsonText
  unfolding encode
  update_text u = elim (encode (to_jsonable u)) [
    | none ↦ err value_error
    | some s ↦ ok (record { encoded = s; value = to_jsonable u })
  ]

  abbrev pub status_row : String → StatusUpdate → String → ℕ → StatusRow
  status_row project_id u text at = record {
    update_id = u.update_id;
    project_id = project_id;
    task_id = u.task_id;
    session_id = u.session_id;
    status = u.status;
    observed_at = at;
    payload_digest = "sha256:" <> sha256 text;
    payload_json = text;
    update = u;
  }

  pub publish_body : String → StatusUpdate → JsonText → ℕ → Exec Store (Unit {0})
  unfolding check_status_session store_update enqueue_event signal_of upsert_attention
  publish_body project_id u text at = do
    check_status_session project_id u
    existing ← gets (λ s. find (has_update u.update_id) s.status_updates)
    store_update (status_row project_id u text.encoded at) existing
    enqueue_event (status_event project_id u text at)
    signal ← signal_of project_id u
    upsert_attention signal

  -- `_published_status`
  pub published_status : String → Exec Store PublishedStatus
  unfolding get_status_update get_outbox get_attention
  published_status update_id = do
    found ← get_status_update update_id
    queued ← get_outbox (status_outbox_id update_id)
    row ← or_raise runtime_store_corrupt found
    event ← or_raise runtime_store_corrupt queued
    key ← lift (attention_dedupe_key event.project_id row.update)
    item ← get_attention key
    attention ← or_raise runtime_store_corrupt item
    pure (record { update = row; outbox = event; attention = attention })

  check_update : String → StatusUpdate → Exec Store (JsonText × ℕ)
  unfolding validate_status_semantics
  check_update project_id u = do
    lift (require_text project_id)
    validate_status_semantics u
    text ← lift (update_text u)
    at ← lift (encode_time u.observed_at)
    pure (text, at)

  unfoldable pub publish_status_update : String → StatusUpdate → Exec Store PublishedStatus
  unfolding check_update publish_body write_transaction published_status
  publish_status_update project_id u = do
    checked ← check_update project_id u
    write_transaction (publish_body project_id u checked.0 checked.1)
    published_status u.update_id
