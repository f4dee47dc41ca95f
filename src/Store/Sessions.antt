-- ===== src/Store/Sessions.antt =====
-- Runtime Sessions (`save_session`, `update_session_state`, `authenticate_session`,
-- `rotate_session_token`, `get_session`, `list_sessions` of src/researchctl/runtime/store.py).
mod Rows
pub mod Evolution
pub mod Routing
pub mod Authentication
pub mod Aside
unfoldable pub use Rows.*
use Prim.Native.String.{compare, ◌++◌ as ◌<>◌}
use text.Mathlib.Text.{is_le}
use research_agent_ops.Base.{
  sort_by, is_earlier_by, ℕ, ◌+◌, String, ◌≡◌, ◌↔◌, ap, Bool, true, false, ◌&&◌, ◌||◌, not, Option,
  none, some, List, [], ◌∷◌, ◌==◌, Eq, nat_eq, nat_beq, nat_beq_iff, string_eq, option_eq, ltb, leb,
  if◌then◌else◌, find, any, update, select, arith,
}
use research_agent_ops.Errors.{
  Result, ok, err, invalid_runtime_session, continued_session_not_found, session_identity_conflict,
  session_terminal, stale_session_observation, session_not_found, unauthorized_actor,
  session_token_rotation_forbidden, assertion_error,
}
use research_agent_ops.Json.{Json}
use research_agent_ops.Exec.{Exec, pure, lift, gets, or_raise, ◌>>=◌, ◌>>◌, raise_if, skip}
use research_agent_ops.Store.Schema.{
  Store, RuntimeSession, SessionState, preparing, active, idle, stopping, stopped, lost, Datetime,
  JsonText, NotificationRow, NotificationRoute, NotificationState, session, manager_exception,
  replied,
}
use research_agent_ops.Store.Checks.{require_text, require_digest, encode_time, json_object}
use research_agent_ops.Store.Transaction.{write_transaction, read_lock, insert_row}

-- The branch without a stored row: a continued Session keeps its project and Task.
pub check_source : RuntimeSession → Exec Store (Unit {0})
check_source new s = elim new.continued_from [
  | none ↦ (ok tt, s)
  | some from ↦ elim (find (has_session from) s.sessions) [
    | none ↦ (err continued_session_not_found, s)
    | some source ↦
        if source.project_id == new.project_id && source.task_id == new.task_id
        then (ok tt, s)
        else (err session_identity_conflict, s)
  ]
]

insert_session : RuntimeSession → Exec Store (Unit {0})
unfolding check_source insert_row
insert_session new = do check_source new; insert_row (session_clashes new) (add_session new)

-- The branch with a stored row.
update_session : RuntimeSession → RuntimeSession → Exec Store (Unit {0})
update_session new existing = do
  raise_if (not (same_identity existing new)) session_identity_conflict
  raise_if (is_lost existing.state && not (same_observation new existing)) session_terminal
  raise_if (ltb new.updated_at existing.updated_at) stale_session_observation
  raise_if (new.updated_at == existing.updated_at && not (same_observation new existing))
      stale_session_observation
  λ s. (ok tt, reroute new (set_session new s))

save_row : RuntimeSession → Option RuntimeSession → Exec Store (Unit {0})
unfolding insert_session update_session
save_row new none = insert_session new
save_row new (some existing) = update_session new existing

save_body : RuntimeSession → Exec Store (Unit {0})
unfolding save_row
save_body new = do
  existing ← gets (λ s. find (has_session new.session_id) s.sessions)
  save_row new existing

pub get_session : String → Exec Store (Option RuntimeSession)
unfolding read_lock
get_session id = read_lock (λ s. find (has_session id) s.sessions)

read_session : String → Exec Store RuntimeSession
unfolding get_session
read_session id = do found ← get_session id; or_raise assertion_error found

abbrev optional_digest : Option String → Result (Unit {0})
optional_digest none = ok tt
optional_digest (some d) = require_digest d

-- the checks at the head of `save_session`, and the row that it writes
check_session : SessionInput → Exec Store RuntimeSession
check_session x = do
  created_at ← lift (encode_time x.created_at)
  updated_at ← lift (encode_time x.updated_at)
  raise_if (ltb updated_at created_at) invalid_runtime_session
  lift (require_text x.session_id)
  lift (require_text x.project_id)
  lift (require_text x.task_id)
  raise_if (x.continued_from == some x.session_id) invalid_runtime_session
  lift (optional_digest x.actor_token_digest)
  metadata ← lift (json_object x.metadata)
  pure (session_row x created_at updated_at metadata)

unfoldable pub save_session : SessionInput → Exec Store RuntimeSession
unfolding check_session save_body write_transaction read_session
save_session x = do
  new ← check_session x
  write_transaction (save_body new)
  read_session x.session_id

-- `replace(existing, ...)`
abbrev replacement : RuntimeSession → SessionState → Datetime → Option Json → SessionInput
replacement row state observed_at metadata = record {
  session_id = row.session_id;
  project_id = row.project_id;
  task_id = row.task_id;
  state = state;
  created_at = record { instant = row.created_at; aware = true };
  updated_at = observed_at;
  host = row.host;
  branch = row.branch;
  worktree_path = row.worktree_path;
  continued_from = row.continued_from;
  actor_token_digest = row.actor_token_digest;
  metadata = elim metadata [ none ↦ row.metadata.value | some v ↦ v ];
}

unfoldable pub update_session_state :
    String → SessionState → Datetime → Option Json → Exec Store RuntimeSession
unfolding save_session get_session
update_session_state id state observed_at metadata = do
  found ← get_session id
  existing ← or_raise session_not_found found
  save_session (replacement existing state observed_at metadata)

abbrev may_rotate : SessionState → Bool
may_rotate preparing = true
may_rotate idle = true
may_rotate stopped = true
may_rotate _ = false

abbrev pub with_token : String → ℕ → RuntimeSession → RuntimeSession
with_token digest at row = record row { actor_token_digest = some digest; updated_at = at }

abbrev pub set_token : String → String → ℕ → Store → Store
set_token id digest at s = record s {
  sessions = update (has_session id) (with_token digest at) s.sessions;
}

rotate_row : String → String → ℕ → RuntimeSession → Exec Store (Unit {0})
rotate_row id digest at row = do
  raise_if (not (may_rotate row.state)) session_token_rotation_forbidden
  if row.actor_token_digest == some digest then skip else do
    raise_if (leb at row.updated_at) stale_session_observation
    λ s. (ok tt, set_token id digest at s)

rotate_body : String → String → ℕ → Exec Store (Unit {0})
unfolding rotate_row
rotate_body id digest at = do
  found ← gets (λ s. find (has_session id) s.sessions)
  row ← or_raise session_not_found found
  rotate_row id digest at row

pub rotate_session_token : String → String → Datetime → Exec Store RuntimeSession
unfolding rotate_body write_transaction read_session
rotate_session_token id digest observed_at = do
  lift (require_digest digest)
  at ← lift (encode_time observed_at)
  write_transaction (rotate_body id digest at)
  read_session id

-- ORDER BY created_at, session_id
abbrev is_older : RuntimeSession → RuntimeSession → Bool
is_older = is_earlier_by (λ r. r.created_at) (λ r. r.session_id)

-- a clause of the query that is there only if its filter is
abbrev matches : {A : Type 0} ⦃e : Eq A⦄ → Option A → A → Bool
matches none a = true
matches (some b) a = a == b

pub list_sessions :
    Option String → Option String → Option SessionState → Exec Store (List RuntimeSession)
unfolding sort_by read_lock
list_sessions project_id task_id state = read_lock (λ s. sort_by is_older (
    select
      (λ r. matches project_id r.project_id && (matches task_id r.task_id && matches state r.state))
      s.sessions))

-- `hashlib.sha256(...).hexdigest()` of a text's UTF-8 bytes
module _ (sha256 : String → String) where
  dummy_token_digest : String
  dummy_token_digest = "sha256:0000000000000000000000000000000000000000000000000000000000000000"

  -- `hash_session_token`; `none` where it raises ValueError
  abbrev pub hash_session_token : String → Option String
  hash_session_token token = if token == "" then none else some ("sha256:" <> sha256 token)

  abbrev stored_digest : Option RuntimeSession → String
  stored_digest none = dummy_token_digest
  stored_digest (some row) = elim row.actor_token_digest [ none ↦ dummy_token_digest | some d ↦ d ]

  abbrev candidate_digest : Option String → String
  candidate_digest none = dummy_token_digest
  candidate_digest (some d) = d

  abbrev has_token : Option RuntimeSession → Bool
  has_token none = false
  has_token (some row) = elim row.actor_token_digest [ none ↦ false | some d ↦ true ]

  abbrev is_valid_token : Option String → Bool
  is_valid_token none = false
  is_valid_token (some d) = true

  -- `hmac.compare_digest` is the equality of the two texts
  pub authenticate_session : String → String → Exec Store RuntimeSession
  unfolding read_lock dummy_token_digest
  authenticate_session id token = do
    row ← read_lock (λ s. find (has_session id) s.sessions)
    let candidate = hash_session_token token
    raise_if
        (not (is_valid_token candidate)
          || (not (has_token row) || not (stored_digest row == candidate_digest candidate)))
        unauthorized_actor
    or_raise unauthorized_actor row
