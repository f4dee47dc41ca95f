-- ===== src/Linear/Worker/Samples.antt =====
-- The worker and its deliveries at concrete inputs: tests, and instances of the theorems with
-- hypotheses.
use research_agent_ops.Linear.Worker.Fixtures.{
  hex64, uuid, marker, platform, event, actor, lossy, port, World, port-IsLinear,
}
use research_agent_ops.Base.{
  ◌≤◌, String, ◌≡◌, refl, true, Option, none, some, [], ◌∷◌, string_eq, bytes_eq, arith,
}
use research_agent_ops.Errors.{Result, ok, err, value_error}
use research_agent_ops.Json.{Fields, null, string, object, fields}
use research_agent_ops.Store.Schema.{Store, Datetime, empty_store, OutboxRow, OutboxState}
use research_agent_ops.Store.Delivery.{accepted_topic}
use research_agent_ops.Linear.Comments.{copies}
use research_agent_ops.Linear.Accepted.{validate_event}
use research_agent_ops.Linear.Accepted.Payload.{linear_event_payload}
use research_agent_ops.Linear.Accepted.Payload.Reading.{linear_event_from_payload, event_fields}
use research_agent_ops.Linear.Accepted.Payload.RoundTrip.{RoundTrips, from_payload-payload}
use research_agent_ops.Linear.Accepted.Deliver.{deliver}
use research_agent_ops.Linear.Accepted.Outcome.{DeliveryState, LinearDeliveryOutcome}
use research_agent_ops.Linear.Accepted.Deliver.Once.{attempts, attempts_comment_once}
use research_agent_ops.Linear.Accepted.Deliver.Delivered
use research_agent_ops.Linear.Accepted.Deliver.Delivered.{deliver-Honest}
use research_agent_ops.Linear.Reply.{LinearSessionReplyEvent, build_linear_session_reply_event}
use research_agent_ops.Linear.Reply.Project.{project_reply}
use research_agent_ops.Linear.Reply.Project.Once.{reply_copies, replies, replies_comment_once}
use research_agent_ops.Linear.Reply.Project.Delivered as Replied
use research_agent_ops.Linear.Reply.Project.Delivered.{project_reply-Honest}
use research_agent_ops.Linear.Worker.{LinearWorkerResult, run_once, topic_report}
use research_agent_ops.Linear.Worker.Reports.{Passes, topic_report-Passes}
use research_agent_ops.Store.Delivery.{claim_linear_delivery, finish_linear_delivery, selected}
use research_agent_ops.Store.Checks.{require_text, encode_time}
use research_agent_ops.Linear.Worker.Settles.{Settles, run_once-Settles}

event_in_order : validate_event platform event ≡ ok none
unfolding validate_event
event_in_order = refl

trips : RoundTrips platform event
unfolding bytes_eq
trips = record { ints = λ n. refl; projection = refl; payload_text = refl; body_text = refl }

from_payload-payload_example :
    linear_event_from_payload platform (linear_event_payload platform event) ≡ ok event
from_payload-payload_example = from_payload-payload platform event trips refl

abbrev state_of : Result LinearDeliveryOutcome → Option DeliveryState
state_of (ok o) = some o.state
state_of (err c) = none

-- The answer to the first write is lost; the second attempt finds the comment.
lost_then_found :
    (state_of (deliver platform port actor event "app" lossy).0 ≡ some DeliveryState.retryable)
    × (state_of
          (deliver platform port actor event "app"
            (deliver platform port actor event "app" lossy).1).0
        ≡ some DeliveryState.delivered)
unfolding deliver
lost_then_found = (refl, refl)

attempts_comment_once_example :
    copies port
      (λ w. w.stored)
      "app"
      uuid
      marker
      none
      (attempts platform port event "app" actor 3 lossy)
    ≤ 1
attempts_comment_once_example =
    attempts_comment_once platform port (λ w. w.stored) port-IsLinear event "app" actor 3 lossy
      (omega arith)

deliver-Honest_example :
    Delivered.Honest platform port event "app" (deliver platform port actor event "app" lossy).0
deliver-Honest_example = deliver-Honest platform port event "app" actor lossy

abbrev reply_payload : String → Fields
reply_payload author = fields (
    ("workspace_id", string uuid)
    ∷ ("linear_issue_id", string uuid)
    ∷ ("source_thread_id", string uuid)
    ∷ ("source_comment_id", string uuid)
    ∷ ("notification_id", string "n")
    ∷ ("reply_id", string "y")
    ∷ ("task_id", string "t")
    ∷ ("session_id", string "s")
    ∷ ("commit_sha", string hex64)
    ∷ ("body", string "Fixed <it>.\n")
    ∷ ("actor_id", string author)
    ∷ ("marker", object (fields (("report_id", null) ∷ [])))
    ∷ [])

abbrev no_reply : LinearSessionReplyEvent
no_reply = record {
  event_id = "";
  project_id = "";
  notification_id = "";
  reply_id = "";
  task_id = "";
  session_id = "";
  agent_id = "";
  report_id = none;
  target = record { workspace_id = ""; issue_id = ""; thread_id = ""; source_comment_id = "" };
  renderer_payload = [];
  payload_digest = "";
  marker = "";
  transport_body = [];
  source_marker = record {
    agent_id = "";
    task_id = "";
    session_id = "";
    report_id = none;
    marker_digest = "";
  };
}

abbrev reply_or : Result LinearSessionReplyEvent → LinearSessionReplyEvent
reply_or (ok e) = e
reply_or (err c) = no_reply

reply : LinearSessionReplyEvent
reply = reply_or (build_linear_session_reply_event platform "p" "o" (reply_payload "a"))

reply_built : build_linear_session_reply_event platform "p" "o" (reply_payload "a") ≡ ok reply
unfolding build_linear_session_reply_event reply
reply_built = refl

project_reply-Honest_example :
    Replied.Honest platform port reply "app" (project_reply platform port reply "app" lossy).0
project_reply-Honest_example =
    project_reply-Honest platform port "p" "o" "app" (reply_payload "a") reply lossy reply_built

replies_comment_once_example :
    reply_copies platform port
      (λ w. w.stored)
      port-IsLinear
      reply
      "app"
      (replies platform port reply "app" 3 lossy)
    ≤ 1
replies_comment_once_example =
    replies_comment_once platform port (λ w. w.stored) port-IsLinear reply "app" 3 lossy
      (omega arith)

abbrev row : OutboxRow
row = record {
  outbox_id = "e1";
  project_id = "p";
  topic = accepted_topic;
  aggregate_id = "e1";
  payload_json = record { encoded = "{}"; value = object (linear_event_payload platform event) };
  created_at = 1;
  state = OutboxState.pending;
}

topic_report-Passes_example : Passes (topic_report platform "robot" "app" port actor row lossy).0
topic_report-Passes_example = topic_report-Passes platform "robot" "app" port actor row lossy

-- The event of a reply by an author whose name is not ASCII raises ValueError.
foreign_author_raises :
    build_linear_session_reply_event platform "p" "o" (reply_payload "é") ≡ err value_error
unfolding build_linear_session_reply_event
foreign_author_raises = refl

abbrev noon : Datetime
noon = record { instant = 43200000000; aware = true }

abbrev start : Store × World
start = (record empty_store { projection_outbox = row ∷ [] }, lossy)

-- The first call loses the answer, so that the event is to be tried again.
first_call :
    (r : LinearWorkerResult) × (y : Store × World) × (run_once platform "robot" "app" port
        (λ v. none)
        noon
        actor
        "p"
        "c1"
        noon
        60
        start
      ≡ (ok r, y))
unfolding run_once claim_linear_delivery finish_linear_delivery require_text encode_time selected
    linear_event_from_payload linear_event_payload event_fields deliver
first_call = (_, _, refl)

first_call_state : first_call.0.state ≡ some DeliveryState.retryable
unfolding first_call
first_call_state = refl

run_once-Settles_example : Settles "p" "c1" noon.instant first_call.0 first_call.1.0
run_once-Settles_example =
    run_once-Settles platform (λ v. none) port "robot" "app" noon actor "p" "c1" noon 60 start
      first_call.2
