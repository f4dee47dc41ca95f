-- ===== src/Task/Service.antt =====
-- The writes of Task records that the application service makes: the parts of `task_create`,
-- `task_update` and `task_cancel` of src/researchctl/services/application.py between the claim of the
-- operation and the events of its journal, and `_validate_task_policy`.
pub mod Allowed
pub mod History
mod Samples
use research_agent_ops.Base.{
  String, Bool, true, false, not, ◌||◌, Option, none, some, List, any, ◌==◌, string_eq, nat_eq, leb,
}
use research_agent_ops.Errors.{
  immutable_task_identity, execution_domain_not_configured, immutable_task_creation_time,
  invalid_task_transition, invalid_task_update_time, task_terminal, invalid_task_initial_state,
}
use research_agent_ops.Exec.{Exec, pure, ◌>>=◌, ◌>>◌, raise_if}
use research_agent_ops.Store.Schema.{Datetime}
use research_agent_ops.Task.Policy.{task_transition_allowed, task_state_eq, planned, done}
use research_agent_ops.Task.Records.{
  TaskRecord, Directory, TaskWriteResult, path_of, load, create, replace, cancel,
}

-- The parameters of Task.Records, and the execution domains of the project's policy.
module _ (dump_yaml : TaskRecord → String) (load_model : String → Option TaskRecord)
    (canonical_digest : TaskRecord → String) (is_yaml : String → Bool)
    (configured_domains : List String) where
  pub load_parent : Option String → Exec Directory (Unit {0})
  load_parent none = pure tt
  load_parent (some task_id) = do
    parent ← load dump_yaml load_model canonical_digest is_yaml task_id
    pure tt

  pub validate_task_policy : TaskRecord → Exec Directory (Unit {0})
  unfolding load_parent
  validate_task_policy r = do
    raise_if (not (any (λ domain. domain == r.execution_domain) configured_domains))
        execution_domain_not_configured
    load_parent r.parent_task_id

  -- `task_create`
  unfoldable pub task_create : TaskRecord → Exec Directory TaskWriteResult
  unfolding validate_task_policy
  task_create r = do
    raise_if (not (task_state_eq r.state planned)) invalid_task_initial_state
    validate_task_policy r
    create dump_yaml load_model canonical_digest is_yaml r

  -- The branch of `task_update` on whether the two digests are the same.
  pub write_update :
      String → String → TaskRecord → TaskRecord → Bool → Exec Directory TaskWriteResult
  write_update task_id expected_digest current replacement true = pure record {
    written = current;
    digest = canonical_digest replacement;
    path = path_of task_id;
    changed = false;
  }
  write_update task_id expected_digest current replacement false = do
    raise_if (leb replacement.updated_at current.updated_at) invalid_task_update_time
    replace dump_yaml load_model canonical_digest is_yaml task_id expected_digest replacement

  -- `task_update`
  unfoldable pub task_update : String → String → TaskRecord → Exec Directory TaskWriteResult
  unfolding validate_task_policy write_update
  task_update task_id expected_digest replacement = do
    current ← load dump_yaml load_model canonical_digest is_yaml task_id
    raise_if (not (replacement.task_id == current.task_id) || not (replacement.key == current.key))
        immutable_task_identity
    raise_if (not (replacement.created_at == current.created_at)) immutable_task_creation_time
    raise_if (not (task_transition_allowed current.state replacement.state)) invalid_task_transition
    validate_task_policy replacement
    write_update task_id expected_digest current replacement
        (canonical_digest current == canonical_digest replacement)

  -- `task_cancel`
  unfoldable pub task_cancel : String → String → Datetime → Exec Directory TaskWriteResult
  task_cancel task_id expected_digest updated_at = do
    current ← load dump_yaml load_model canonical_digest is_yaml task_id
    raise_if (task_state_eq current.state done) task_terminal
    cancel dump_yaml load_model canonical_digest is_yaml task_id expected_digest updated_at
