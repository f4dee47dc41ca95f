-- ===== src/Store/Schema.antt =====
-- The tables of the runtime database (the migrations of src/researchctl/runtime/store.py) and the
-- records that the methods return (src/researchctl/runtime/models.py). A timestamp column holds a
-- fixed-width UTC text, which orders as the instant does: here it is the microseconds since the
-- epoch. A JSON column is its text together with the value that the text was written from.
use research_agent_ops.Base.{ℕ, String, Bool, false, Option, List, []}
use research_agent_ops.Json.{Json, Items}

-- A datetime: the instant, and whether it carries a UTC offset.
pub record Datetime : Type 0 where
  pub instant : ℕ
  pub aware : Bool

pub record JsonText : Type 0 where
  pub encoded : String
  pub value : Json

pub data OperationState : Type 0 where
  running terminal : OperationState

pub data SessionState : Type 0 where
  preparing active idle stopping stopped lost : SessionState

pub data NotificationRoute : Type 0 where
  session manager_exception : NotificationRoute

pub data NotificationState : Type 0 where
  pending acknowledged replied : NotificationState

pub data OutboxState : Type 0 where
  pending delivered dead_letter : OutboxState

pub record OperationRow : Type 0 where
  pub operation_id : String
  pub project_id : String
  pub command : String
  pub idempotency_key : String
  pub request_digest : String
  pub state : OperationState
  pub started_at : ℕ
  pub finished_at : Option ℕ
  pub terminal_result : Option String
  pub result_json : Option JsonText

pub record OperationEvent : Type 0 where
  pub operation_id : String
  pub sequence : ℕ
  pub kind : String
  pub observed_at : ℕ
  pub payload : JsonText

pub record OperationRecord : Type 0 where
  pub row : OperationRow
  pub events : List OperationEvent

-- A row of `runtime_sessions`, and the record RuntimeSession.
pub record RuntimeSession : Type 0 where
  pub session_id : String
  pub project_id : String
  pub task_id : String
  pub state : SessionState
  pub created_at : ℕ
  pub updated_at : ℕ
  pub host : Option String
  pub branch : Option String
  pub worktree_path : Option String
  pub continued_from : Option String
  pub actor_token_digest : Option String
  pub metadata : JsonText

pub record SourceMarker : Type 0 where
  pub agent_id : String
  pub task_id : String
  pub session_id : String
  pub report_id : Option String
  pub marker_digest : String

pub record NotificationOrigin : Type 0 where
  pub workspace_id : String
  pub issue_id : String
  pub thread_id : String
  pub comment_id : String
  pub source_marker : Option SourceMarker

-- A row of `session_notifications`.
pub record NotificationRow : Type 0 where
  pub notification_id : String
  pub project_id : String
  pub task_id : String
  pub session_id : String
  pub linear_issue_id : String
  pub source_thread_id : String
  pub source_comment_id : String
  pub commit_sha : String
  pub message_text : String
  pub origin : NotificationOrigin
  pub origin_json : String
  pub route : NotificationRoute
  pub state : NotificationState
  pub revision : ℕ
  pub created_at : ℕ
  pub routed_at : ℕ
  pub fallback_reason : Option String
  pub acknowledged_by : Option String
  pub acknowledged_at : Option ℕ
  pub acknowledged_operation_id : Option String
  pub reply_id : Option String
  pub replied_by : Option String
  pub replied_at : Option ℕ

pub record ReplyRow : Type 0 where
  pub reply_id : String
  pub notification_id : String
  pub project_id : String
  pub task_id : String
  pub session_id : String
  pub actor_id : String
  pub body_text : String
  pub payload_digest : String
  pub payload_json : JsonText
  pub created_at : ℕ
  pub operation_id : String

-- A row of `outbox_events`, `notification_reply_outbox` or `linear_projection_outbox`, and the
-- record OutboxRecord.
pub record OutboxRow : Type 0 where
  pub outbox_id : String
  pub project_id : String
  pub topic : String
  pub aggregate_id : String
  pub payload_json : JsonText
  pub created_at : ℕ
  pub state : OutboxState

pub record ClaimRow : Type 0 where
  pub topic : String
  pub outbox_id : String
  pub project_id : String
  pub claim_id : String
  pub claimed_at : ℕ
  pub expires_at : ℕ

pub record DeliveryStatusRow : Type 0 where
  pub topic : String
  pub outbox_id : String
  pub project_id : String
  pub attempt_count : ℕ
  pub last_error_code : Option String
  pub last_claim_id : Option String
  pub updated_at : ℕ

-- A row of `linear_delivery_receipts`.
pub record ReceiptRow : Type 0 where
  pub receipt_id : String
  pub project_id : String
  pub credential_identity : String
  pub topic : String
  pub outbox_id : String
  pub workspace_id : String
  pub issue_id : String
  pub thread_id : String
  pub comment_id : String
  pub event_id : String
  pub task_id : String
  pub source_marker_json : Option String
  pub payload_digest : String
  pub transport_digest : String
  pub marker_text : String
  pub payload_json : JsonText
  pub created_at : ℕ

pub data AttentionState : Type 0 where
  open_ acknowledged snoozed resolved : AttentionState

pub data StatusKind : Type 0 where
  running blocked needs_input ready_for_review : StatusKind

-- A DecisionRequest: its question, and the value that `model_dump` gives.
pub record DecisionRequest : Type 0 where
  pub question : String
  pub dumped : Json

-- A StatusUpdate; its evidence is the list of the values that `model_dump` gives.
pub record StatusUpdate : Type 0 where
  pub update_id : String
  pub task_id : String
  pub session_id : String
  pub status : StatusKind
  pub summary : String
  pub observed_at : Datetime
  pub evidence : Items
  pub blocker_category : Option String
  pub blocker_detail : Option String
  pub decision_needed : Option DecisionRequest
  pub suggested_next_action : Option String

-- A row of `status_updates`: the text in its JSON column, and the update that it was written from.
pub record StatusRow : Type 0 where
  pub update_id : String
  pub project_id : String
  pub task_id : String
  pub session_id : String
  pub status : StatusKind
  pub observed_at : ℕ
  pub payload_digest : String
  pub payload_json : String
  pub update : StatusUpdate

-- A row of `attention_items`.
pub record AttentionRow : Type 0 where
  pub dedupe_key : String
  pub project_id : String
  pub task_id : String
  pub session_id : String
  pub kind : String
  pub identity_text : String
  pub priority : ℕ
  pub state : AttentionState
  pub generation : ℕ
  pub evidence_digest : String
  pub current_update_id : String
  pub first_seen_at : ℕ
  pub last_seen_at : ℕ
  pub acknowledged_by : Option String
  pub acknowledged_at : Option ℕ
  pub acknowledged_update_id : Option String
  pub snoozed_by : Option String
  pub snoozed_until : Option ℕ
  pub snoozed_update_id : Option String
  pub resolved_by : Option String
  pub resolved_at : Option ℕ
  pub resolved_update_id : Option String
  pub resolution_reason : Option String

-- A row of `attention_actions`.
pub record ActionRow : Type 0 where
  pub action_key : String
  pub dedupe_key : String
  pub action : String
  pub actor : String
  pub source_update_id : String
  pub operation_id : Option String
  pub generation : ℕ
  pub observed_at : ℕ
  pub detail_json : String

-- A row of `verified_linear_ingress_receipts`, whose provider is always "linear".
pub record IngressRow : Type 0 where
  pub receipt_id : String
  pub project_id : String
  pub authenticated_app_id : String
  pub mentioned_app_id : String
  pub author_id : String
  pub credential_identity : String
  pub workspace_id : String
  pub issue_id : String
  pub thread_id : String
  pub comment_id : String
  pub webhook_event_id : Option String
  pub task_id : String
  pub source_marker : Option SourceMarker
  pub command_digest : String
  pub observed_payload_digest : String
  pub binding_digest : String
  pub verified_at : ℕ

-- The open connection and its tables. `writer_busy` holds while another connection keeps the
-- write lock past the busy timeout.
pub record Store : Type 0 where
  pub closed : Bool
  pub writer_busy : Bool
  pub operations : List OperationRow
  pub operation_events : List OperationEvent
  pub sessions : List RuntimeSession
  pub notifications : List NotificationRow
  pub replies : List ReplyRow
  pub reply_outbox : List OutboxRow
  pub projection_outbox : List OutboxRow
  pub claims : List ClaimRow
  pub delivery_status : List DeliveryStatusRow
  pub delivery_receipts : List ReceiptRow
  pub status_updates : List StatusRow
  pub outbox_events : List OutboxRow
  pub attention_items : List AttentionRow
  pub attention_actions : List ActionRow
  pub ingress_receipts : List IngressRow

abbrev pub empty_store : Store
empty_store = record {
  closed = false;
  writer_busy = false;
  operations = [];
  operation_events = [];
  sessions = [];
  notifications = [];
  replies = [];
  reply_outbox = [];
  projection_outbox = [];
  claims = [];
  delivery_status = [];
  delivery_receipts = [];
  status_updates = [];
  outbox_events = [];
  attention_items = [];
  attention_actions = [];
  ingress_receipts = [];
}
