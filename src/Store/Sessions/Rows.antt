-- ===== src/Store/Sessions/Rows.antt =====
-- The rows of Sessions, and what `save_session` writes (src/researchctl/runtime/store.py).
use Prim.Native.String.{◌++◌ as ◌<>◌}
use research_agent_ops.Base.{
  ℕ, ◌+◌, String, ◌≡◌, ◌↔◌, ap, Bool, true, false, ◌&&◌, ◌||◌, not, Option, none, some, ◌∷◌, ◌==◌,
  Eq, nat_eq, nat_beq, nat_beq_iff, string_eq, option_eq, if◌then◌else◌, any, update, arith,
}
use research_agent_ops.Json.{Json, comparison_text}
use research_agent_ops.Store.Schema.{
  Store, RuntimeSession, SessionState, preparing, active, idle, stopping, stopped, lost, Datetime,
  JsonText, NotificationRow, NotificationRoute, NotificationState, session, manager_exception,
  replied,
}

-- the position of a member in its enumeration
abbrev pub index : SessionState → ℕ
index preparing = 0
index active = 1
index idle = 2
index stopping = 3
index stopped = 4
index lost = 5

pub index-injective : (a b : SessionState) → index a ≡ index b → a ≡ b
index-injective a b h = ground arith

pub same_state_iff : (a b : SessionState) → (nat_beq (index a) (index b) ≡ true) ↔ (a ≡ b)
same_state_iff a b = (
  (λ h. index-injective a b ((nat_beq_iff (index a) (index b)).0 h)),
  (λ h. (nat_beq_iff (index a) (index b)).1 (ap index h)),
)

instance abbrev pub session_state_eq : Eq SessionState
session_state_eq = record { test = λ a b. nat_beq (index a) (index b); test_iff = same_state_iff }

-- The member's value, as the text of a StrEnum.
abbrev pub state_value : SessionState → String
state_value preparing = "preparing"
state_value active = "active"
state_value idle = "idle"
state_value stopping = "stopping"
state_value stopped = "stopped"
state_value lost = "lost"

-- in {SessionState.STOPPED, SessionState.LOST}
abbrev pub has_ended : SessionState → Bool
has_ended stopped = true
has_ended lost = true
has_ended _ = false

abbrev pub is_lost : SessionState → Bool
is_lost lost = true
is_lost _ = false

-- WHERE session_id = ?
abbrev pub has_session : String → RuntimeSession → Bool
has_session id row = row.session_id == id

-- The argument of `save_session`: a RuntimeSession before its columns are encoded.
pub record SessionInput : Type 0 where
  pub session_id : String
  pub project_id : String
  pub task_id : String
  pub state : SessionState
  pub created_at : Datetime
  pub updated_at : Datetime
  pub host : Option String
  pub branch : Option String
  pub worktree_path : Option String
  pub continued_from : Option String
  pub actor_token_digest : Option String
  pub metadata : Json

abbrev pub session_row : SessionInput → ℕ → ℕ → JsonText → RuntimeSession
session_row x created_at updated_at metadata = record {
  session_id = x.session_id;
  project_id = x.project_id;
  task_id = x.task_id;
  state = x.state;
  created_at = created_at;
  updated_at = updated_at;
  host = x.host;
  branch = x.branch;
  worktree_path = x.worktree_path;
  continued_from = x.continued_from;
  actor_token_digest = x.actor_token_digest;
  metadata = metadata;
}

-- `immutable_existing == immutable_new`
abbrev pub same_identity : RuntimeSession → RuntimeSession → Bool
same_identity a b =
    a.project_id == b.project_id
    && (a.task_id == b.task_id
        && (a.created_at == b.created_at
            && (a.host == b.host
                && (a.branch == b.branch
                    && (a.worktree_path == b.worktree_path
                        && (a.continued_from == b.continued_from
                            && a.actor_token_digest == b.actor_token_digest))))))

-- `session == existing`, for two rows with the same identity; the two metadata are compared as dicts
abbrev pub same_observation : RuntimeSession → RuntimeSession → Bool
same_observation a b =
    a.state == b.state
    && (a.updated_at == b.updated_at
        && comparison_text a.metadata.value == comparison_text b.metadata.value)

-- INSERT INTO runtime_sessions: the primary key, and the foreign key of `continued_from`
abbrev pub session_clashes : RuntimeSession → Store → Bool
session_clashes row s = any (has_session row.session_id) s.sessions || elim row.continued_from [
  | none ↦ false
  | some from ↦ not (any (has_session from) s.sessions)
]

abbrev pub add_session : RuntimeSession → Store → Store
add_session row s = record s { sessions = row ∷ s.sessions }

-- UPDATE runtime_sessions SET state = ?, updated_at = ?, metadata_json = ?
abbrev pub observed : RuntimeSession → RuntimeSession → RuntimeSession
observed new row = record row {
  state = new.state;
  updated_at = new.updated_at;
  metadata = new.metadata;
}

abbrev pub set_session : RuntimeSession → Store → Store
set_session new s = record s {
  sessions = update (has_session new.session_id) (observed new) s.sessions;
}

-- state IN ('pending', 'acknowledged')
abbrev pub is_unreplied : NotificationState → Bool
is_unreplied replied = false
is_unreplied _ = true

abbrev pub is_session_route : NotificationRoute → Bool
is_session_route session = true
is_session_route manager_exception = false

-- WHERE session_id = ? AND route = 'session' AND state IN ('pending', 'acknowledged')
abbrev pub awaits_session : String → NotificationRow → Bool
awaits_session id n = n.session_id == id && (is_session_route n.route && is_unreplied n.state)

abbrev pub fallback : SessionState → String
fallback state = "session_" <> state_value state

abbrev pub rerouted : ℕ → SessionState → NotificationRow → NotificationRow
rerouted at state n = record n {
  route = manager_exception;
  routed_at = at;
  fallback_reason = some (fallback state);
  revision = n.revision + 1;
}

-- The open notifications of a Session that has ended go to the manager.
abbrev pub reroute : RuntimeSession → Store → Store
reroute new s =
    if has_ended new.state
    then record s {
      notifications =
          update (awaits_session new.session_id) (rerouted new.updated_at new.state)
            s.notifications;
    }
    else s
