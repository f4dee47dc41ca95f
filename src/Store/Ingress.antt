-- ===== src/Store/Ingress.antt =====
-- Verified Linear ingress (`record_verified_linear_ingress`, `require_verified_notification_origin`,
-- `resolve_verified_source_marker` of src/researchctl/runtime/store.py): a receipt for each
-- authenticated comment.
mod Markers
pub mod Replay
pub mod Origin
mod Samples
unfoldable pub use Markers.*
use Prim.Native.String.{compare, ◌++◌ as ◌<>◌}
use text.Mathlib.Text.{is_le}
use research_agent_ops.Base.{
  sort_by, is_earlier_by, ℕ, String, Bool, true, false, ◌&&◌, ◌||◌, not, Option, none, some, List,
  [], ◌∷◌, ◌==◌, nat_eq, string_eq, option_eq, ltb, if◌then◌else◌, find, any, select, all,
}
use research_agent_ops.Errors.{
  Result, ok, err, linear_ingress_source_task_mismatch, linear_ingress_receipt_conflict,
  linear_notification_origin_unverified, linear_source_marker_ambiguous, assertion_error,
  value_error,
}
use research_agent_ops.Json.{Json, object, string, null, field, end, encode}
use research_agent_ops.Exec.{Exec, pure, lift, gets, or_raise, ◌>>=◌, ◌>>◌, raise, raise_if, skip}
use research_agent_ops.Store.Schema.{Store, Datetime, SourceMarker, IngressRow, ReceiptRow}
use research_agent_ops.Store.Checks.{require_text, require_digest, encode_time}
use research_agent_ops.Store.Transaction.{write_transaction, read_lock, insert_row}
use research_agent_ops.Store.Attention.{optional_text}

-- The arguments of `record_verified_linear_ingress`, but for the time.
pub record IngressInput : Type 0 where
  pub project_id : String
  pub authenticated_app_id : String
  pub mentioned_app_id : String
  pub author_id : String
  pub credential_identity : String
  pub workspace_id : String
  pub issue_id : String
  pub thread_id : String
  pub comment_id : String
  pub webhook_event_id : Option String
  pub task_id : String
  pub source_marker : Option SourceMarker
  pub command_digest : String
  pub observed_payload_digest : String

abbrev pub same_marker : SourceMarker → SourceMarker → Bool
same_marker a b =
    a.agent_id == b.agent_id
    && (a.task_id == b.task_id
        && (a.session_id == b.session_id
            && (a.report_id == b.report_id && a.marker_digest == b.marker_digest)))

abbrev pub same_optional_marker : Option SourceMarker → Option SourceMarker → Bool
same_optional_marker none none = true
same_optional_marker none (some b) = false
same_optional_marker (some a) none = false
same_optional_marker (some a) (some b) = same_marker a b

-- `replay_fields`
abbrev pub same_ingress : IngressRow → IngressInput → Bool
same_ingress r x =
    r.project_id == x.project_id
    && (r.authenticated_app_id == x.authenticated_app_id
        && (r.mentioned_app_id == x.mentioned_app_id
            && (r.author_id == x.author_id
                && (r.credential_identity == x.credential_identity
                    && (r.workspace_id == x.workspace_id
                        && (r.issue_id == x.issue_id
                            && (r.thread_id == x.thread_id
                                && (r.comment_id == x.comment_id
                                    && (r.webhook_event_id == x.webhook_event_id
                                        && (r.task_id == x.task_id
                                            && (same_optional_marker r.source_marker x.source_marker
                                                && (r.command_digest == x.command_digest
                                                    && r.observed_payload_digest
                                                      == x.observed_payload_digest))))))))))))

-- WHERE provider = 'linear' AND workspace_id = ? AND comment_id = ?
abbrev pub names_comment : String → String → IngressRow → Bool
names_comment workspace_id comment_id r =
    r.workspace_id == workspace_id && r.comment_id == comment_id

-- UNIQUE (provider, workspace_id, webhook_event_id), where null differs from null
abbrev pub names_event : String → Option String → IngressRow → Bool
names_event workspace_id none r = false
names_event workspace_id (some e) r = r.workspace_id == workspace_id && r.webhook_event_id == some e

-- INSERT INTO verified_linear_ingress_receipts: the primary key and both UNIQUE constraints
abbrev pub ingress_clashes : IngressRow → Store → Bool
ingress_clashes r s =
    any
      (λ (q : IngressRow).
        q.receipt_id == r.receipt_id
        || (names_comment r.workspace_id r.comment_id q
            || names_event r.workspace_id r.webhook_event_id q))
      s.ingress_receipts

abbrev pub add_ingress : IngressRow → Store → Store
add_ingress r s = record s { ingress_receipts = r ∷ s.ingress_receipts }

abbrev of_another_task : String → Option SourceMarker → Bool
of_another_task task_id none = false
of_another_task task_id (some m) = not (m.task_id == task_id)

require_optional_text : Option String → Result (Unit {0})
require_optional_text none = ok tt
require_optional_text (some t) = require_text t

pub check_ingress : IngressInput → Exec Store (Unit {0})
unfolding require_optional_text
check_ingress x = do
  lift (require_text x.project_id)
  lift (require_text x.authenticated_app_id)
  lift (require_text x.mentioned_app_id)
  lift (require_text x.author_id)
  lift (require_text x.credential_identity)
  lift (require_text x.workspace_id)
  lift (require_text x.issue_id)
  lift (require_text x.thread_id)
  lift (require_text x.comment_id)
  lift (require_text x.task_id)
  lift (require_digest x.command_digest)
  lift (require_digest x.observed_payload_digest)
  raise_if (of_another_task x.task_id x.source_marker) linear_ingress_source_task_mismatch
  lift (require_optional_text x.webhook_event_id)

-- `marker_data`
abbrev marker_data : Option SourceMarker → Json
marker_data none = null
marker_data (some m) = object (
    field "agent_id" (string m.agent_id) (
      field "task_id" (string m.task_id) (
        field "session_id" (string m.session_id) (
          field "report_id" (optional_text m.report_id)
            (field "marker_digest" (string m.marker_digest) end)))))

-- `binding`, which leaves the project out
abbrev pub binding : IngressInput → Json
binding x = object (
    field "provider" (string "linear") (
      field "authenticated_app_id" (string x.authenticated_app_id) (
        field "mentioned_app_id" (string x.mentioned_app_id) (
          field "author_id" (string x.author_id) (
            field "credential_identity" (string x.credential_identity) (
              field "workspace_id" (string x.workspace_id) (
                field "issue_id" (string x.issue_id) (
                  field "thread_id" (string x.thread_id) (
                    field "comment_id" (string x.comment_id) (
                      field "webhook_event_id" (optional_text x.webhook_event_id) (
                        field "task_id" (string x.task_id) (
                          field "source_marker" (marker_data x.source_marker) (
                            field "command_digest" (string x.command_digest) (
                              field "observed_payload_digest" (string x.observed_payload_digest)
                                end))))))))))))))

-- The row of a new receipt, by the hexadecimal digest of its binding.
abbrev pub ingress_row : IngressInput → String → ℕ → IngressRow
ingress_row x hex at = record {
  receipt_id = "linear-ingress-" <> hex;
  project_id = x.project_id;
  authenticated_app_id = x.authenticated_app_id;
  mentioned_app_id = x.mentioned_app_id;
  author_id = x.author_id;
  credential_identity = x.credential_identity;
  workspace_id = x.workspace_id;
  issue_id = x.issue_id;
  thread_id = x.thread_id;
  comment_id = x.comment_id;
  webhook_event_id = x.webhook_event_id;
  task_id = x.task_id;
  source_marker = x.source_marker;
  command_digest = x.command_digest;
  observed_payload_digest = x.observed_payload_digest;
  binding_digest = "sha256:" <> hex;
  verified_at = at;
}

-- The branch on the comment's row, inside the transaction: the ID of its receipt.
pub bind_comment : IngressRow → Option IngressRow → Exec Store String
bind_comment new (some r) = do
  raise_if (not (r.binding_digest == new.binding_digest)) linear_ingress_receipt_conflict
  pure r.receipt_id
bind_comment new none = do insert_row (ingress_clashes new) (add_ingress new); pure new.receipt_id

pub ingress_body : IngressRow → Exec Store String
unfolding bind_comment insert_row
ingress_body new = do
  existing ← gets (λ s. find (names_comment new.workspace_id new.comment_id) s.ingress_receipts)
  bind_comment new existing

-- The address that `require_verified_notification_origin` is asked for.
pub record OriginAddress : Type 0 where
  pub project_id : String
  pub workspace_id : String
  pub issue_id : String
  pub thread_id : String
  pub comment_id : String
  pub task_id : String

abbrev pub is_at : OriginAddress → IngressRow → Bool
is_at a r =
    r.project_id == a.project_id
    && (r.workspace_id == a.workspace_id
        && (r.issue_id == a.issue_id
            && (r.thread_id == a.thread_id
                && (r.comment_id == a.comment_id && r.task_id == a.task_id))))

abbrev pub address_of : IngressInput → OriginAddress
address_of x = record {
  project_id = x.project_id;
  workspace_id = x.workspace_id;
  issue_id = x.issue_id;
  thread_id = x.thread_id;
  comment_id = x.comment_id;
  task_id = x.task_id;
}

unfoldable pub require_verified_notification_origin : OriginAddress → Exec Store IngressRow
unfolding read_lock
require_verified_notification_origin a = do
  row ← read_lock (λ s. find (is_at a) s.ingress_receipts)
  or_raise linear_notification_origin_unverified row

-- The hexadecimal digest of a text.
module _ (sha256 : String → String) where
  -- `binding_digest`, without its prefix
  unfoldable pub binding_hex : IngressInput → Result String
  unfolding encode
  binding_hex x = elim (encode (binding x)) [
    | none ↦ err value_error
    | some text ↦ ok (sha256 text)
  ]

  -- The branch on the row that was read ahead of the transaction.
  pub record_unless_known : IngressInput → Datetime → Option IngressRow → Exec Store IngressRow
  unfolding ingress_body write_transaction require_verified_notification_origin
  record_unless_known x verified_at (some r) = do
    raise_if (not (same_ingress r x)) linear_ingress_receipt_conflict
    pure r
  record_unless_known x verified_at none = do
    hex ← lift (binding_hex x)
    at ← lift (encode_time verified_at)
    receipt_id ← write_transaction (ingress_body (ingress_row x hex at))
    receipt ← require_verified_notification_origin (address_of x)
    raise_if (not (receipt.receipt_id == receipt_id)) assertion_error
    pure receipt

  unfoldable pub record_verified_linear_ingress : IngressInput → Datetime → Exec Store IngressRow
  unfolding check_ingress record_unless_known read_lock
  record_verified_linear_ingress x verified_at = do
    check_ingress x
    known ← read_lock (λ s. find (names_comment x.workspace_id x.comment_id) s.ingress_receipts)
    record_unless_known x verified_at known
