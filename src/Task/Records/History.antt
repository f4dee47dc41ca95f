-- ===== src/Task/Records/History.antt =====
-- A history of the directory of Task records: the writes of `TaskRecordRepository`
-- (src/researchctl/services/task_records.py), one after the other, each with any outcome.
use research_agent_ops.Base.{String, ◌≡◌, Bool, Option, some}
use research_agent_ops.Errors.{ok}
use research_agent_ops.Exec.{Exec}
use research_agent_ops.Store.Schema.{Datetime}
use research_agent_ops.Task.Records.{
  TaskRecord, Directory, TaskWriteResult, with_cancel, load, create, replace, cancel,
}
use research_agent_ops.Task.Records.Kept.{
  TasksWell, create-TasksWell, replace-TasksWell, cancel-TasksWell,
}

-- A call of a method, with its arguments.
pub data TaskCall : Type 0 where
  create_ : TaskRecord → TaskCall
  replace_ : String → String → TaskRecord → TaskCall
  cancel_ : String → String → Datetime → TaskCall

module _ (dump_yaml : TaskRecord → String) (load_model : String → Option TaskRecord)
    (canonical_digest : TaskRecord → String) (is_yaml : String → Bool) where
  abbrev pub call : TaskCall → Exec Directory TaskWriteResult
  call (create_ r) = create dump_yaml load_model canonical_digest is_yaml r
  call (replace_ task_id expected r) =
      replace dump_yaml load_model canonical_digest is_yaml task_id expected r
  call (cancel_ task_id expected at) =
      cancel dump_yaml load_model canonical_digest is_yaml task_id expected at

  -- The record that a call may write is read back from the text that is written for it.
  abbrev pub Saves : Directory → TaskCall → Type 0
  Saves d (create_ r) = load_model (dump_yaml r) ≡ some r
  Saves d (replace_ task_id expected r) = load_model (dump_yaml r) ≡ some r
  Saves d (cancel_ task_id expected at) =
      (current u : TaskRecord)
      → load dump_yaml load_model canonical_digest is_yaml task_id d ≡ (ok current, d)
      → with_cancel current at ≡ ok u
      → load_model (dump_yaml u) ≡ some u

  -- The directories that calls lead to, from one on.
  pub data Reaches (d : Directory) : Directory → Type 0 where
    here : Reaches d d
    next : {e : Directory} (c : TaskCall) → Reaches d e → Saves e c → Reaches d (call c e).1

  -- From a directory in which every file holds the record it is named after, and no two files have a
  -- path or a key in common, calls of `create`, `replace` and `cancel`, whether they raise or return,
  -- lead only to such directories, where each record that a call may write is read back from the text
  -- that is written for it.
  pub tasks_stay_well :
      {d e : Directory}
      → Reaches d e
      → TasksWell dump_yaml load_model canonical_digest is_yaml d
      → TasksWell dump_yaml load_model canonical_digest is_yaml e
  tasks_stay_well here w = w
  tasks_stay_well (next {e} (create_ r) before saves) w =
      ((create-TasksWell dump_yaml load_model canonical_digest is_yaml r saves).at e)
        (tasks_stay_well before w)
  tasks_stay_well (next {e} (replace_ task_id expected r) before saves) w =
      ((replace-TasksWell dump_yaml load_model canonical_digest is_yaml task_id expected r saves).at
          e)
        (tasks_stay_well before w)
  tasks_stay_well (next {e} (cancel_ task_id expected at) before saves) w =
      cancel-TasksWell dump_yaml load_model canonical_digest is_yaml task_id expected at e saves
        (tasks_stay_well before w)
