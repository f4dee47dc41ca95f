-- ===== src/Linear/Worker/Fixtures.antt =====
-- A platform, an event and a Linear with one issue at concrete inputs, for the samples of the worker of
-- src/researchctl/services/linear_worker.py.
use Prim.Native.String.{◌++◌ as ◌<>◌}
use research_agent_ops.Base.{
  codes, ℕ, String, ◌≡◌, refl, ◌∙◌, ap, Bool, true, false, Option, none, some, List, [], ◌∷◌, inr,
  string_eq, count, find, Bytes, bytes_eq, arith, if◌then◌else◌,
}
use research_agent_ops.Errors.{Result, ok}
use research_agent_ops.Json.{Json, int}
use research_agent_ops.Actor.{ActorContext, trusted_automation, automation_credential}
use research_agent_ops.Linear.Remote.{
  Platform, LinearTarget, LinearTargetObservation, LinearReplyTarget, LinearReplyTargetObservation,
  LinearCommentObservation, LinearProjectionConfigured, Response, answered, unavailable,
  DeliveryPort,
}
use research_agent_ops.Linear.Comments.{own_comment, carries, IsLinear}
use research_agent_ops.Linear.Accepted.{
  LinearAcceptedResultEvent, linear_renderer_id, linear_renderer_version,
}

abbrev pub hex64 : String
hex64 = "0123456789abcdef0123456789abcdef0123456789abcdef0123456789abcdef"

abbrev pub digest : String
digest = "sha256:0123456789abcdef0123456789abcdef0123456789abcdef0123456789abcdef"

abbrev pub uuid : String
uuid = "01234567-89ab-1def-8123-456789abcdef"

abbrev pub marker : String
marker =
    "<!-- researchctl-linear-delivery:v1 event_id=linear-event-0123456789abcdef0123456789abcdef0123456789abcdef0123456789abcdef payload_digest=sha256:0123456789abcdef0123456789abcdef0123456789abcdef0123456789abcdef agent_id=a session_id=s task_id=t report_id=r -->"

abbrev pub payload_text : String
payload_text = "Done.\n"

abbrev pub body_text : String
body_text = payload_text <> (marker <> "\n")

abbrev pub projection : LinearProjectionConfigured
projection = record {
  workspace_id = uuid;
  team_id = uuid;
  project_id = none;
  issue_id = uuid;
  renderer_id = linear_renderer_id;
  renderer_version = linear_renderer_version;
  payload_digest = digest;
}

abbrev pub int_of : Json → Option ℕ
int_of (int n) = some n
int_of _ = none

-- Every text has one digest here, and the codec knows the two texts of the event.
abbrev pub platform : Platform
platform = record {
  sha256 = λ content. hex64;
  utf8 = codes;
  decode = λ content. if bytes_eq content (codes payload_text) then payload_text else body_text;
  json_str = λ v. "";
  json_int = int_of;
  valid_marker = λ m. true;
  projection_of = λ v. some projection;
}

abbrev pub event : LinearAcceptedResultEvent
event = record {
  event_id = "linear-event-0123456789abcdef0123456789abcdef0123456789abcdef0123456789abcdef";
  agent_id = "a";
  project_id = "p";
  task_id = "t";
  session_id = "s";
  submission_id = "u";
  decision_id = "d";
  report_id = "r";
  report_revision = 4;
  accepted_merge_commit = hex64;
  ci_subject_head = hex64;
  ci_attestation_id = "c";
  workflow_id = "w";
  check_identity = "i";
  task_digest = digest;
  submission_digest = digest;
  decision_digest = digest;
  report_digest = digest;
  target = record { workspace_id = uuid; team_id = uuid; project_id = none; issue_id = uuid };
  ci_projection = projection;
  renderer_id = linear_renderer_id;
  renderer_version = linear_renderer_version;
  payload_digest = digest;
  renderer_payload = codes payload_text;
  marker = marker;
  transport_body = codes body_text;
  workflow_run_id = some "12";
  check_run_id = some "3";
  artifact_id = some "45";
}

-- Comments, and whether the next answer to a write is lost.
pub record World : Type 0 where
  pub stored : List LinearCommentObservation
  pub loses : Bool

abbrev written : String → Bytes → Option String → LinearCommentObservation
written issue body thread = record {
  comment_id = uuid;
  issue_id = issue;
  thread_id = uuid;
  author_app_id = "app";
  body = body;
}

abbrev answer : Bool → LinearCommentObservation → Response LinearCommentObservation
answer true c = unavailable
answer false c = answered c

abbrev seen_target : LinearTarget → LinearTargetObservation
seen_target t = record {
  workspace_id = t.workspace_id;
  team_id = t.team_id;
  team_workspace_id = t.workspace_id;
  project_id = none;
  project_workspace_id = none;
  project_team_ids = [];
  issue_id = t.issue_id;
  issue_workspace_id = t.workspace_id;
  issue_team_id = t.team_id;
  issue_project_ids = [];
  workspace_archived = false;
  team_archived = false;
  project_archived = false;
  issue_archived = false;
}

abbrev seen_reply_target : LinearReplyTarget → LinearReplyTargetObservation
seen_reply_target t = record {
  workspace_id = t.workspace_id;
  issue_id = t.issue_id;
  thread_id = t.thread_id;
  source_comment_id = t.source_comment_id;
  workspace_archived = false;
  issue_archived = false;
  thread_archived = false;
}

abbrev pub port : DeliveryPort World
port = record {
  preflight_target = λ t w. (ok (answered (some (seen_target t))), w);
  preflight_reply_target = λ t w. (ok (answered (some (seen_reply_target t))), w);
  observe_comment = λ issue marker app thread w.
      (ok (answered (find (carries app issue marker thread) w.stored)), w);
  create_comment = λ issue body thread w.
      let c = written issue body thread in
      (ok (answer w.loses c), record { stored = c ∷ w.stored; loses = false });
}

count-carries :
    (app issue marker : String) (thread : Option String) (cs : List LinearCommentObservation)
    → own_comment app (find (carries app issue marker thread) cs) ≡ none
    → count (carries app issue marker thread) cs ≡ 0
count-carries app issue marker thread [] h = refl
count-carries app issue marker thread (c ∷ cs) h =
    ground (arith, count-carries app issue marker thread cs)

abbrev answer_of :
    Result (Response (Option LinearCommentObservation)) → Option LinearCommentObservation
answer_of (ok (answered found)) = found
answer_of _ = none

pub port-IsLinear : IsLinear port (λ w. w.stored)
port-IsLinear = record {
  preflight_reads = λ t w. refl;
  reply_preflight_reads = λ t w. refl;
  observe_reads = λ issue marker app thread w. refl;
  observe_finds = λ issue marker app thread w found given missing.
      count-carries app issue marker thread w.stored
        (ap (λ r. own_comment app (answer_of r)) given ∙ missing);
  create_adds = λ issue body thread w. inr (written issue body thread, refl);
}

abbrev pub actor : ActorContext
actor = record {
  actor_id = "robot";
  role = trusted_automation;
  credential_kind = automation_credential;
  bound_session_id = none;
}

abbrev pub lossy : World
lossy = record { stored = []; loses = true }
