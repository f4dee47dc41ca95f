-- ===== src/Linear/Reply/Built.antt =====
-- What holds of an event that `build_linear_session_reply_event` returns
-- (src/researchctl/services/linear_worker.py).
use research_agent_ops.Base.{codes, String, ◌≡◌, refl, subst, Bool, true, false, not, if◌then◌else◌}
use research_agent_ops.Errors.{and_then, Code, Result, ok, err, linear_session_reply_event_invalid}
use research_agent_ops.Json.{Fields}
use research_agent_ops.Store.Delivery.Receipts.{lookup_field, has_fields}
use research_agent_ops.Linear.Envelope.{add_linear_transport_envelope}
use research_agent_ops.Linear.Remote.{Platform, LinearReplyTarget, bytes_digest}
use research_agent_ops.Linear.Accepted.Outcome.{source_marker_of}
use research_agent_ops.Linear.Reply.{
  LinearSessionReplyEvent, ReplyIdentity, filled, marker_fields, reply_text, reply_marker,
  reply_event, reply_with_target, required, build_linear_session_reply_event, report_text,
}

-- The transport body is the payload in the marker's envelope.
abbrev pub Envelops : LinearSessionReplyEvent → Type 0
Envelops e = add_linear_transport_envelope e.renderer_payload (codes e.marker) ≡ ok e.transport_body

-- What is returned, if anything is.
abbrev Holds : Result LinearSessionReplyEvent → Type 0
Holds (ok e) = Envelops e
Holds (err c) = Unit

and_then-Holds :
    {A : Type 0} (r : Result A) (f : A → Result LinearSessionReplyEvent)
    → ((a : A) → r ≡ ok a → Holds (f a))
    → Holds (and_then r f)
and_then-Holds (ok a) f h = h a refl
and_then-Holds (err c) f h = tt

filled-Holds :
    (key : String) (payload : Fields) (f : String → Result LinearSessionReplyEvent)
    → ((s : String) → Holds (f s))
    → Holds (and_then (filled (lookup_field key payload)) f)
filled-Holds key payload f h = and_then-Holds (filled (lookup_field key payload)) f λ s _. h s

if-Holds :
    (b : Bool) (c : Code) (r : Result LinearSessionReplyEvent)
    → Holds r
    → Holds (if b then r else err c)
if-Holds true c r h = h
if-Holds false c r h = tt

else-Holds :
    (b : Bool) (c : Code) (r : Result LinearSessionReplyEvent)
    → Holds r
    → Holds (if b then err c else r)
else-Holds true c r h = tt
else-Holds false c r h = h

module _ (platform : Platform) where
  reply_event-Holds :
      (project_id outbox_id : String) (x : ReplyIdentity) (target : LinearReplyTarget)
      (body commit_sha : String)
      → Holds (reply_event platform project_id outbox_id x target body commit_sha)
  unfolding reply_event
  reply_event-Holds project_id outbox_id x target body commit_sha =
      let payload = platform.utf8 (reply_text x body commit_sha) in
      let marker = reply_marker outbox_id (bytes_digest platform payload) x in
      and_then-Holds
        (source_marker_of platform marker x.agent_id x.task_id x.session_id x.report_id) _
        λ source_marker _.
          and_then-Holds (add_linear_transport_envelope payload (codes marker)) _
            λ transport_body e. e

  reply_with_target-Holds :
      (project_id outbox_id : String) (x : ReplyIdentity) (target : LinearReplyTarget)
      (body commit_sha : String)
      → Holds (reply_with_target platform project_id outbox_id x target body commit_sha)
  unfolding reply_with_target
  reply_with_target-Holds project_id outbox_id x target body commit_sha =
      if-Holds _ linear_session_reply_event_invalid
        (reply_event platform project_id outbox_id x target body commit_sha)
        (reply_event-Holds project_id outbox_id x target body commit_sha)

  build-Holds :
      (project_id outbox_id : String) (payload : Fields)
      → Holds (build_linear_session_reply_event platform project_id outbox_id payload)
  unfolding build_linear_session_reply_event
  build-Holds project_id outbox_id payload =
      else-Holds (not (has_fields payload required)) linear_session_reply_event_invalid _ (
        and_then-Holds (marker_fields (lookup_field "marker" payload)) _ λ marker_data _.
          filled-Holds "workspace_id" payload _ λ workspace_id.
            filled-Holds "linear_issue_id" payload _ λ issue_id.
              filled-Holds "source_thread_id" payload _ λ thread_id.
                filled-Holds "source_comment_id" payload _ λ source_comment_id.
                  filled-Holds "notification_id" payload _ λ notification_id.
                    filled-Holds "reply_id" payload _ λ reply_id.
                      filled-Holds "task_id" payload _ λ task_id.
                        filled-Holds "session_id" payload _ λ session_id.
                          filled-Holds "actor_id" payload _ λ agent_id.
                            filled-Holds "commit_sha" payload _ λ commit_sha.
                              filled-Holds "body" payload _ λ body.
                                reply_with_target-Holds project_id outbox_id
                                  (record {
                                    agent_id = agent_id;
                                    session_id = session_id;
                                    task_id = task_id;
                                    report_id =
                                        report_text platform (lookup_field "report_id" marker_data);
                                    notification_id = notification_id;
                                    reply_id = reply_id;
                                  })
                                  (record {
                                    workspace_id = workspace_id;
                                    issue_id = issue_id;
                                    thread_id = thread_id;
                                    source_comment_id = source_comment_id;
                                  })
                                  body commit_sha)

  pub build-Envelops :
      (project_id outbox_id : String) (payload : Fields) {e : LinearSessionReplyEvent}
      → build_linear_session_reply_event platform project_id outbox_id payload ≡ ok e
      → Envelops e
  build-Envelops project_id outbox_id payload h =
      subst Holds h (build-Holds project_id outbox_id payload)
