-- ===== src/Linear/Reply.antt =====
-- The event of a Session's reply (`_escaped`, `_reply_marker`, `build_linear_session_reply_event` of
-- src/researchctl/services/linear_worker.py).
pub mod Built
pub mod Project
use Prim.Native.Char.{code}
use Prim.Native.String.{◌++◌ as ◌<>◌}
use research_agent_ops.Base.{
  codes, ℕ, String, Bool, true, false, ◌&&◌, ◌||◌, not, Option, none, some, List, [], ◌∷◌, ◌==◌,
  string_eq, nat_eq, if◌then◌else◌, Bytes,
}
use research_agent_ops.Errors.{
  and_then as ◌>>=◌, Result, ok, err, linear_session_reply_event_invalid,
}
use research_agent_ops.Json.{Json, Fields, null, string, object}
use research_agent_ops.Store.Schema.{SourceMarker}
use research_agent_ops.Store.Delivery.Receipts.{lookup_field, has_fields}
use research_agent_ops.Linear.Envelope.{add_linear_transport_envelope}
use research_agent_ops.Linear.Remote.{Platform, LinearReplyTarget, is_linear_uuid, bytes_digest}
use research_agent_ops.Linear.Accepted.Outcome.{source_marker_of}

pub record LinearSessionReplyEvent : Type 0 where
  pub event_id : String
  pub project_id : String
  pub notification_id : String
  pub reply_id : String
  pub task_id : String
  pub session_id : String
  pub agent_id : String
  pub report_id : Option String
  pub target : LinearReplyTarget
  pub renderer_payload : Bytes
  pub payload_digest : String
  pub marker : String
  pub transport_body : Bytes
  pub source_marker : SourceMarker

-- What `_escaped` makes of one character: `html.escape`, a backslash ahead of the marks of Markdown, and
-- a break for the end of a line.
abbrev escaped_code : ℕ → String → String
escaped_code n c =
    if n == 38
    then "&amp;"
    else if n == 60
    then "&lt;"
    else if n == 62
    then "&gt;"
    else if n == 92 || n == 96 || n == 42 || n == 95 || n == 91 || n == 93 || n == 35 || n == 124
    then "\\" <> c
    else if n == 10 || n == 13
    then "<br>\n"
    else c

-- The rest of a text; the flag is set behind a carriage return, which a line feed belongs to.
pub escaped_from : Bool → String → String
escaped_from after_return String.[] = ""
escaped_from after_return (String.◌∷◌ c s) =
    (if code c == 10 && after_return then "" else escaped_code (code c) (String.◌∷◌ c ""))
    <> escaped_from (code c == 13) s

-- `_escaped`
unfoldable pub escaped_text : String → String
unfolding escaped_from
escaped_text s = escaped_from false s

-- `report_id or 'none'`
abbrev or_none : Option String → String
or_none none = "none"
or_none (some String.[]) = "none"
or_none (some s) = s

-- The identities that the marker and the payload of a reply show.
pub record ReplyIdentity : Type 0 where
  pub agent_id : String
  pub session_id : String
  pub task_id : String
  pub report_id : Option String
  pub notification_id : String
  pub reply_id : String

-- `_reply_marker`
unfoldable pub reply_marker : String → String → ReplyIdentity → String
reply_marker event_id payload_digest x =
    "<!-- researchctl-linear-delivery:v1 topic=linear.session-reply.v1 event_id="
    <> (event_id
        <> (" payload_digest="
            <> (payload_digest
                <> (" agent_id="
                    <> (x.agent_id
                        <> (" session_id="
                            <> (x.session_id
                                <> (" task_id="
                                    <> (x.task_id
                                        <> (" report_id="
                                            <> (or_none x.report_id
                                                <> (" notification_id="
                                                    <> (x.notification_id
                                                        <> (" reply_id="
                                                            <> (x.reply_id <> " -->")))))))))))))))

-- `renderer_payload`, ahead of its encoding
unfoldable pub reply_text : ReplyIdentity → String → String → String
unfolding escaped_text
reply_text x body commit_sha =
    "<!-- researchctl-renderer:linear.session-reply-markdown.v2 -->\n"
    <> (escaped_text body
        <> ("\n\n- Agent: `"
            <> (x.agent_id
                <> ("`\n- Session: `"
                    <> (x.session_id
                        <> ("`\n- Task: `"
                            <> (x.task_id
                                <> ("`\n- Report: `"
                                    <> (or_none x.report_id
                                        <> ("`\n- Commit reviewed: `"
                                            <> (commit_sha
                                                <> ("`\n- Reply: `"
                                                    <> (x.reply_id <> "`\n")))))))))))))

abbrev required : List String
required =
    "workspace_id" ∷ "linear_issue_id" ∷ "source_thread_id" ∷ "source_comment_id"
    ∷ "notification_id" ∷ "reply_id" ∷ "task_id" ∷ "session_id" ∷ "commit_sha" ∷ "body" ∷ "actor_id"
    ∷ "marker" ∷ []

-- `payload.get("marker")`, where it is a dict
marker_fields : Option Json → Result Fields
marker_fields (some (object fs)) = ok fs
marker_fields _ = err linear_session_reply_event_invalid

-- A value that is a text and not empty.
filled : Option Json → Result String
filled (some (string String.[])) = err linear_session_reply_event_invalid
filled (some (string s)) = ok s
filled _ = err linear_session_reply_event_invalid

abbrev filled_at : String → Fields → Result String
filled_at key payload = filled (lookup_field key payload)

module _ (platform : Platform) where
  -- `str(report) if report is not None else None`
  report_text : Option Json → Option String
  report_text none = none
  report_text (some null) = none
  report_text (some (string s)) = some s
  report_text (some v) = some (platform.json_str v)

  -- The end of `build_linear_session_reply_event`, on the values that it has checked.
  pub reply_event :
      String
      → String
      → ReplyIdentity
      → LinearReplyTarget
      → String
      → String
      → Result LinearSessionReplyEvent
  unfolding reply_text reply_marker source_marker_of add_linear_transport_envelope
  reply_event project_id outbox_id x target body commit_sha = do
    let payload = platform.utf8 (reply_text x body commit_sha)
    let digest = bytes_digest platform payload
    let marker = reply_marker outbox_id digest x
    source_marker ← source_marker_of platform marker x.agent_id x.task_id x.session_id x.report_id
    transport_body ← add_linear_transport_envelope payload (codes marker)
    ok (record {
      event_id = outbox_id;
      project_id = project_id;
      notification_id = x.notification_id;
      reply_id = x.reply_id;
      task_id = x.task_id;
      session_id = x.session_id;
      agent_id = x.agent_id;
      report_id = x.report_id;
      target = target;
      renderer_payload = payload;
      payload_digest = digest;
      marker = marker;
      transport_body = transport_body;
      source_marker = source_marker;
    })

  -- The test of the UUIDs of the target.
  reply_with_target :
      String
      → String
      → ReplyIdentity
      → LinearReplyTarget
      → String
      → String
      → Result LinearSessionReplyEvent
  unfolding reply_event is_linear_uuid
  reply_with_target project_id outbox_id x target body commit_sha =
      if is_linear_uuid target.workspace_id
        && is_linear_uuid target.issue_id
        && is_linear_uuid target.thread_id
        && is_linear_uuid target.source_comment_id
      then reply_event project_id outbox_id x target body commit_sha
      else err linear_session_reply_event_invalid

  -- `build_linear_session_reply_event`
  unfoldable pub build_linear_session_reply_event :
      String → String → Fields → Result LinearSessionReplyEvent
  unfolding has_fields marker_fields lookup_field filled report_text reply_with_target
  build_linear_session_reply_event project_id outbox_id payload =
      if not (has_fields payload required) then err linear_session_reply_event_invalid else do
        marker_data ← marker_fields (lookup_field "marker" payload)
        workspace_id ← filled_at "workspace_id" payload
        issue_id ← filled_at "linear_issue_id" payload
        thread_id ← filled_at "source_thread_id" payload
        source_comment_id ← filled_at "source_comment_id" payload
        notification_id ← filled_at "notification_id" payload
        reply_id ← filled_at "reply_id" payload
        task_id ← filled_at "task_id" payload
        session_id ← filled_at "session_id" payload
        agent_id ← filled_at "actor_id" payload
        commit_sha ← filled_at "commit_sha" payload
        body ← filled_at "body" payload
        reply_with_target project_id outbox_id
            (record {
              agent_id = agent_id;
              session_id = session_id;
              task_id = task_id;
              report_id = report_text (lookup_field "report_id" marker_data);
              notification_id = notification_id;
              reply_id = reply_id;
            })
            (record {
              workspace_id = workspace_id;
              issue_id = issue_id;
              thread_id = thread_id;
              source_comment_id = source_comment_id;
            })
            body commit_sha
