-- ===== src/Store/Ingress/Replay/Content.antt =====
-- The content of a receipt, as `record_verified_linear_ingress` compares it
-- (src/researchctl/runtime/store.py).
use research_agent_ops.Base.{
  String, ◌≡◌, refl, true, Option, none, some, ◌==◌, string_eq, option_eq, option_beq_iff, eq_iff,
  arith,
}
use research_agent_ops.Store.Schema.{SourceMarker, IngressRow}
use research_agent_ops.Store.Ingress.{IngressInput, same_ingress, same_optional_marker}

pub same_marker_self : (m : Option SourceMarker) → same_optional_marker m m ≡ true
same_marker_self none = refl
same_marker_self (some m) = ground (
  arith,
  eq_iff m.agent_id m.agent_id,
  eq_iff m.task_id m.task_id,
  eq_iff m.session_id m.session_id,
  (option_beq_iff m.report_id m.report_id).1 refl,
  eq_iff m.marker_digest m.marker_digest,
)

-- The content that a receipt was made from.
abbrev input_of : IngressRow → IngressInput
input_of r = record {
  project_id = r.project_id;
  authenticated_app_id = r.authenticated_app_id;
  mentioned_app_id = r.mentioned_app_id;
  author_id = r.author_id;
  credential_identity = r.credential_identity;
  workspace_id = r.workspace_id;
  issue_id = r.issue_id;
  thread_id = r.thread_id;
  comment_id = r.comment_id;
  webhook_event_id = r.webhook_event_id;
  task_id = r.task_id;
  source_marker = r.source_marker;
  command_digest = r.command_digest;
  observed_payload_digest = r.observed_payload_digest;
}

same_marker_eq : (m n : Option SourceMarker) → same_optional_marker m n ≡ true → m ≡ n
same_marker_eq none none h = refl
same_marker_eq none (some n) h = cc
same_marker_eq (some m) none h = cc
same_marker_eq (some m) (some n) h = ground (
  arith,
  eq_iff m.agent_id n.agent_id,
  eq_iff m.task_id n.task_id,
  eq_iff m.session_id n.session_id,
  (option_beq_iff m.report_id n.report_id).0,
  eq_iff m.marker_digest n.marker_digest,
)

pub same_ingress_eq : (r : IngressRow) (x : IngressInput) → same_ingress r x ≡ true → input_of r ≡ x
same_ingress_eq r x h = ground (
  arith,
  eq_iff r.project_id x.project_id,
  eq_iff r.authenticated_app_id x.authenticated_app_id,
  eq_iff r.mentioned_app_id x.mentioned_app_id,
  eq_iff r.author_id x.author_id,
  eq_iff r.credential_identity x.credential_identity,
  eq_iff r.workspace_id x.workspace_id,
  eq_iff r.issue_id x.issue_id,
  eq_iff r.thread_id x.thread_id,
  eq_iff r.comment_id x.comment_id,
  (option_beq_iff r.webhook_event_id x.webhook_event_id).0,
  eq_iff r.task_id x.task_id,
  same_marker_eq r.source_marker x.source_marker,
  eq_iff r.command_digest x.command_digest,
  eq_iff r.observed_payload_digest x.observed_payload_digest,
)

pub same_text : (s : String) → (s == s) ≡ true
same_text s = (eq_iff s s).1 refl
