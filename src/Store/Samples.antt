-- ===== src/Store/Samples.antt =====
-- Sessions, notifications and replies at concrete inputs: tests, and an instance of each theorem
-- with hypotheses.
use research_agent_ops.Base.{
  true, ℕ, String, ◌≡◌, refl, none, some, List, [], ◌∷◌, map, ◌↔◌, ◌==◌, string_eq, find, false,
}
use research_agent_ops.Store.Sessions.Authentication.{authenticates_iff}
use research_agent_ops.Store.Replies.Published.{AllPublished}
use research_agent_ops.Errors.{ok}
use research_agent_ops.Store.Replies.{ReplyInput, reply_notification}
use research_agent_ops.Json.{Json, object, end, field, int, bool, comparison_text}
use research_agent_ops.Store.Schema.{
  Store, Datetime, empty_store, active, stopped, lost, NotificationRow, NotificationOrigin,
  manager_exception, RuntimeSession, OperationState, replied,
}
use research_agent_ops.Store.Checks.{
  require_text, require_digest, encode_time, json_object, is_object_id,
}
use research_agent_ops.Store.Sessions.{
  SessionInput, save_session, update_session_state, has_session, authenticate_session,
}
use research_agent_ops.Store.Sessions.Evolution.{Advances}
use research_agent_ops.Store.Notifications.{
  NotificationInput, create_notification, require_operation,
}
use research_agent_ops.Store.Notifications.Tracking.{Tracks}
use research_agent_ops.Store.Notifications.Routing.{RoutesWell}
use research_agent_ops.Store.History.{
  Request, save_, update_, create_, ack_, serve_all, sessions_advance, notifications_follow,
  routes_stay_well, reply_, replies_are_published,
}

abbrev noon : Datetime
noon = record { instant = 43200000000; aware = true }

abbrev later : Datetime
later = record { instant = 43200000001; aware = true }

-- stands for the digest, which the store only compares
abbrev plain_digest : String → String
plain_digest s = s

abbrev plain_time : ℕ → String
plain_time t = "1970-01-01T12:00:00.000000Z"

abbrev launched : SessionInput
launched = record {
  session_id = "s";
  project_id = "p";
  task_id = "t";
  state = active;
  created_at = noon;
  updated_at = noon;
  host = none;
  branch = some "main";
  worktree_path = none;
  continued_from = none;
  actor_token_digest = none;
  metadata = object end;
}

abbrev comment : NotificationOrigin
comment = record {
  workspace_id = "w";
  issue_id = "i";
  thread_id = "h";
  comment_id = "c";
  source_marker = none;
}

abbrev question : NotificationInput
question = record {
  notification_id = "n";
  project_id = "p";
  task_id = "t";
  session_id = "s";
  commit_sha = "0123456789012345678901234567890123456789";
  message = "Which seed?";
  origin = comment;
}

-- the Session starts, gets a notification, and stops before it has answered
abbrev requests : List Request
requests = save_ launched ∷ create_ question later ∷ update_ "s" stopped later none ∷ []

state_behind : Store
unfolding serve_all
state_behind = serve_all plain_digest plain_time requests empty_store

-- the notification waits for the manager
rerouted_when_stopped :
    map (λ (n : NotificationRow). n.route) state_behind.notifications ≡ manager_exception ∷ []
unfolding state_behind save_session update_session_state create_notification require_text
    require_digest encode_time json_object is_object_id
rerouted_when_stopped = refl

abbrev answers : List Request
answers = update_ "s" active noon none ∷ ack_ "n" "manager" later 2 "op" ∷ []

sessions_advance_example :
    Advances state_behind (serve_all plain_digest plain_time answers state_behind)
sessions_advance_example = sessions_advance plain_digest plain_time answers state_behind

-- A lost Session that is saved again with True in place of 1 is not refused: its metadata are written.
abbrev marked : Json → SessionInput
marked v = record launched { state = lost; metadata = object (field "a" v end) }

lost_rewritten :
    map
      (λ (r : RuntimeSession). r.metadata.encoded)
      (serve_all plain_digest plain_time
        (save_ (marked (int 1)) ∷ save_ (marked (bool true)) ∷ [])
        empty_store).sessions
    ≡ "{\"a\":true}" ∷ []
unfolding serve_all save_session require_text require_digest encode_time json_object comparison_text
lost_rewritten = refl

RoutesWell-empty : RoutesWell empty_store
RoutesWell-empty = record { keyed = tt; each = tt }

notifications_follow_example :
    Tracks state_behind (serve_all plain_digest plain_time answers state_behind)
notifications_follow_example = notifications_follow plain_digest plain_time answers state_behind

routes_stay_well_example : RoutesWell (serve_all plain_digest plain_time requests empty_store)
routes_stay_well_example =
    routes_stay_well plain_digest plain_time requests empty_store RoutesWell-empty

-- a journal with the operation "op"
abbrev staffed : Store
staffed = record empty_store {
  operations =
      record {
        operation_id = "op";
        project_id = "p";
        command = "reply";
        idempotency_key = "k";
        request_digest = "";
        state = OperationState.running;
        started_at = 0;
        finished_at = none;
        terminal_result = none;
        result_json = none;
      }
      ∷ [];
}

abbrev answer : ReplyInput
answer = record {
  notification_id = "n";
  reply_id = "r";
  actor_id = "a";
  body = "Seed 7.";
  expected_revision = 1;
  operation_id = "op";
}

abbrev conversation : List Request
conversation = save_ launched ∷ create_ question later ∷ reply_ answer later ∷ []

-- the notification is closed
closed_by_reply :
    map
      (λ (n : NotificationRow). n.state)
      (serve_all plain_digest plain_time conversation staffed).notifications
    ≡ replied ∷ []
unfolding serve_all save_session create_notification reply_notification require_operation
    require_text require_digest encode_time json_object is_object_id
closed_by_reply = refl

AllPublished-staffed : AllPublished staffed
AllPublished-staffed = record { each = tt }

replies_are_published_example :
    AllPublished (serve_all plain_digest plain_time conversation staffed)
replies_are_published_example =
    replies_are_published plain_digest plain_time conversation staffed AllPublished-staffed

abbrev secret : String
secret = "secret"

abbrev holder : RuntimeSession
holder = record {
  session_id = "s";
  project_id = "p";
  task_id = "t";
  state = active;
  created_at = 0;
  updated_at = 0;
  host = none;
  branch = none;
  worktree_path = none;
  continued_from = none;
  actor_token_digest = some "sha256:secret";
  metadata = record { encoded = "{}"; value = object end };
}

abbrev guarded : Store
guarded = record empty_store { sessions = holder ∷ [] }

authenticates_iff_example :
    (authenticate_session plain_digest "s" secret guarded ≡ (ok holder, guarded)) ↔ (
      (find (has_session "s") guarded.sessions ≡ some holder)
      × ((secret == "") ≡ false)
      × (holder.actor_token_digest ≡ some "sha256:secret"))
authenticates_iff_example = authenticates_iff plain_digest "s" secret guarded refl holder
