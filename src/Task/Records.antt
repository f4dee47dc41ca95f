-- ===== src/Task/Records.antt =====
-- The files of Task records (`TaskRecordRepository` of
-- src/researchctl/services/task_records.py). `create` and `replace` write under the lock of the
-- directory; a call is taken as one step, also where `cancel` loads ahead of the lock. A directory is
-- the list of its files, but for `.gitkeep`, which `list` skips; paths are relative to it. Symbolic
-- links and failing writes are not modelled.
pub mod Reads
pub mod Kept
pub mod Swap
pub mod Insert
pub mod Cancel
pub mod History
mod Samples
use Prim.Native.String.{compare, ◌++◌ as ◌<>◌}
use text.Mathlib.Text.{is_le}
use research_agent_ops.Base.{
  ℕ, String, Bool, true, false, not, Option, none, some, List, [], ◌∷◌, ◌==◌, string_eq, ltb,
  if◌then◌else◌, find, select, update, keyed_by,
}
use research_agent_ops.Errors.{
  Result, ok, err, invalid_task_record, invalid_task_record_path, invalid_task_store_entry,
  task_not_found, duplicate_task_key, task_id_conflict, task_key_conflict, immutable_task_identity,
  stale_task, value_error,
}
use research_agent_ops.Json.{Json}
use research_agent_ops.Exec.{Exec, pure, raise, lift, gets, or_raise, ◌>>=◌, ◌>>◌, raise_if}
use research_agent_ops.Store.Schema.{Datetime}
use research_agent_ops.Task.Policy.{TaskState, canceled, task_state_eq}

-- A TaskRecord: the fields that the repository and the service read, and the value of the others.
pub record TaskRecord : Type 0 where
  pub task_id : String
  pub key : String
  pub state : TaskState
  pub created_at : ℕ
  pub updated_at : ℕ
  pub execution_domain : String
  pub parent_task_id : Option String
  pub others : Json

pub record TaskFile : Type 0 where
  pub name : String
  pub content : String

pub record Directory : Type 0 where
  pub files : List TaskFile

pub record TaskWriteResult : Type 0 where
  pub written : TaskRecord
  pub digest : String
  pub path : String
  pub changed : Bool

abbrev pub file_name : TaskFile → String
file_name f = f.name

-- `_path`
abbrev pub path_of : String → String
path_of task_id = task_id <> ".yaml"

-- `sorted(self.directory.iterdir())`
pub insert_by_name : TaskFile → List TaskFile → List TaskFile
insert_by_name f [] = f ∷ []
insert_by_name f (g ∷ files) =
    if is_le (compare f.name g.name) then f ∷ g ∷ files else g ∷ insert_by_name f files

pub sort_files : List TaskFile → List TaskFile
unfolding insert_by_name
sort_files [] = []
sort_files (f ∷ files) = insert_by_name f (sort_files files)

abbrev pub add_file : String → String → Directory → Directory
add_file name content d = record { files = record { name = name; content = content } ∷ d.files }

-- `os.replace`
abbrev pub set_file : String → String → Directory → Directory
set_file name content d = record {
  files = update (keyed_by file_name name) (λ f. record f { content = content }) d.files;
}

pub load_file : String → Exec Directory TaskFile
load_file task_id = do
  found ← gets (λ (d : Directory). find (keyed_by file_name (path_of task_id)) d.files)
  or_raise task_not_found found

abbrev pub has_task_key : String → TaskRecord → Bool
has_task_key key r = r.key == key

-- the branches on the records with a key
pub only_match : List TaskRecord → Exec Directory (Option TaskRecord)
only_match [] = pure none
only_match (r ∷ []) = pure (some r)
only_match (r ∷ q ∷ records) = raise duplicate_task_key

-- `TaskRecord.model_validate`, of a valid record with another state and time
abbrev pub with_cancel : TaskRecord → Datetime → Result TaskRecord
with_cancel current updated_at =
    if not updated_at.aware
    then err value_error
    else if ltb updated_at.instant current.created_at
    then err value_error
    else ok (record current { state = canceled; updated_at = updated_at.instant })

-- `dump_yaml`, `load_model`, `canonical_digest` of researchctl.serialization, and whether the suffix of
-- a path is `.yaml` or `.yml`.
module _ (dump_yaml : TaskRecord → String) (load_model : String → Option TaskRecord)
    (canonical_digest : TaskRecord → String) (is_yaml : String → Bool) where
  -- `_read_path`
  pub read_file : TaskFile → Exec Directory TaskRecord
  read_file f = do
    r ← or_raise invalid_task_record (load_model f.content)
    raise_if (not (f.name == path_of r.task_id)) invalid_task_record_path
    pure r

  pub read_files : List TaskFile → Exec Directory (List TaskRecord)
  unfolding read_file
  read_files [] = pure []
  read_files (f ∷ files) = do
    raise_if (not (is_yaml f.name)) invalid_task_store_entry
    r ← read_file f
    records ← read_files files
    pure (r ∷ records)

  unfoldable pub list_records : Exec Directory (List TaskRecord)
  unfolding read_files sort_files
  list_records = do files ← gets (λ d. sort_files d.files); read_files files

  unfoldable pub load : String → Exec Directory TaskRecord
  unfolding load_file read_file
  load task_id = do f ← load_file task_id; read_file f

  unfoldable pub find_by_key : String → Exec Directory (Option TaskRecord)
  unfolding list_records only_match
  find_by_key key = do records ← list_records; only_match (select (has_task_key key) records)

  -- `_result`
  abbrev pub result_of : TaskRecord → Bool → TaskWriteResult
  result_of r changed = record {
    written = r;
    digest = canonical_digest r;
    path = path_of r.task_id;
    changed = changed;
  }

  -- The branch on the record that has the key.
  pub create_owned : TaskRecord → Option TaskRecord → Exec Directory TaskWriteResult
  create_owned r (some q) d = (err task_key_conflict, d)
  create_owned r none d = (ok (result_of r true), add_file (path_of r.task_id) (dump_yaml r) d)

  -- The branch on the file at the record's path.
  pub create_at : TaskRecord → Option TaskFile → Exec Directory TaskWriteResult
  unfolding read_file find_by_key create_owned
  create_at r (some f) = do
    current ← read_file f
    raise_if (not (f.content == dump_yaml r)) task_id_conflict
    pure (result_of current false)
  create_at r none = do owner ← find_by_key r.key; create_owned r owner

  unfoldable pub create : TaskRecord → Exec Directory TaskWriteResult
  unfolding create_at
  create r = do
    found ← gets (λ (d : Directory). find (keyed_by file_name (path_of r.task_id)) d.files)
    create_at r found

  -- The end of `replace`: the write, unless the file has the content.
  pub write_replacement : TaskRecord → TaskFile → TaskRecord → Exec Directory TaskWriteResult
  write_replacement current f r d =
      if f.content == dump_yaml r
      then (ok (result_of current false), d)
      else (ok (result_of r true), set_file (path_of r.task_id) (dump_yaml r) d)

  unfoldable pub replace : String → String → TaskRecord → Exec Directory TaskWriteResult
  unfolding load_file read_file write_replacement
  replace task_id expected_digest replacement = do
    raise_if (not (replacement.task_id == task_id)) immutable_task_identity
    f ← load_file task_id
    current ← read_file f
    raise_if (not (canonical_digest current == expected_digest)) stale_task
    raise_if (not (replacement.key == current.key)) immutable_task_identity
    write_replacement current f replacement

  -- The branch on the state that was loaded.
  pub cancel_loaded :
      String → String → Datetime → TaskRecord → Bool → Exec Directory TaskWriteResult
  unfolding replace
  cancel_loaded task_id expected_digest updated_at current true = pure (result_of current false)
  cancel_loaded task_id expected_digest updated_at current false = do
    replacement ← lift (with_cancel current updated_at)
    replace task_id expected_digest replacement

  unfoldable pub cancel : String → String → Datetime → Exec Directory TaskWriteResult
  unfolding load cancel_loaded task_state_eq
  cancel task_id expected_digest updated_at = do
    current ← load task_id
    cancel_loaded task_id expected_digest updated_at current (task_state_eq current.state canceled)
