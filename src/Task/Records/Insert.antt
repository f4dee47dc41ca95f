-- ===== src/Task/Records/Insert.antt =====
-- `create` of src/researchctl/services/task_records.py, as an insertion into a map from Task IDs to
-- records.
use research_agent_ops.Base.{
  String, ◌≡◌, refl, ◌∙◌, sym, ap, Bool, true, false, not, Option, none, some, ◌==◌, string_eq,
  eq_iff, arith, find, any, keyed_by, if◌then◌else◌, Bool-cases, inl, inr,
}
use research_agent_ops.Errors.{Result, ok, err, task_id_conflict}
use research_agent_ops.Exec.Ensures.{ensures-raise_if, ensures-reads}
use research_agent_ops.Task.Records.{
  TaskRecord, TaskFile, Directory, TaskWriteResult, file_name, path_of, add_file, read_file,
  find_by_key, create_owned, create_at, create,
}
use research_agent_ops.Task.Records.Reads.{
  file_key, read_file-ok, read_file-SameDirectory, find_by_key-none, find_by_key-SameDirectory,
}
use research_agent_ops.Task.Records.Swap.{loaded, view, kept-record_at}

-- An insertion of a record: it raises and leaves the map as it is, or the map had this record already
-- or neither its ID nor its key, and has it.
abbrev pub Inserts :
    (load_model : String → Option TaskRecord) (d : Directory) (r : TaskRecord)
    → Result TaskWriteResult × Directory
    → Type 0
Inserts load_model d r (err c, d') = d' ≡ d
Inserts load_model d r (ok result, d') =
    (result.written ≡ r)
    × ((view load_model d r.task_id ≡ (if result.changed then none else some r))
        × (result.changed ≡ true → any (keyed_by (file_key load_model) r.key) d.files ≡ false))
    × ((other : String)
        → view load_model d' other
          ≡ (if path_of r.task_id == path_of other then some r else view load_model d other))

module _ (dump_yaml : TaskRecord → String) (load_model : String → Option TaskRecord)
    (canonical_digest : TaskRecord → String) (is_yaml : String → Bool) where
  add_file-view :
      (r : TaskRecord) (d : Directory) (other : String)
      → load_model (dump_yaml r) ≡ some r
      → view load_model (add_file (path_of r.task_id) (dump_yaml r) d) other
        ≡ (if path_of r.task_id == path_of other then some r else view load_model d other)
  add_file-view r d other saved = elim (Bool-cases (path_of r.task_id == path_of other)) [
    | inl e ↦ rw e saved
    | inr e ↦ rw e refl
  ]

  create_owned-Inserts :
      (r : TaskRecord) (owner : Option TaskRecord) (d : Directory)
      → load_model (dump_yaml r) ≡ some r
      → find (keyed_by file_name (path_of r.task_id)) d.files ≡ none
      → find_by_key dump_yaml load_model canonical_digest is_yaml r.key d ≡ (ok owner, d)
      → Inserts load_model d r
          (create_owned dump_yaml load_model canonical_digest is_yaml r owner d)
  unfolding create_owned
  create_owned-Inserts r (some q) d saved missing found = refl
  create_owned-Inserts r none d saved missing found =
      let unused =
        (find_by_key-none dump_yaml load_model canonical_digest is_yaml r.key d found).1 in
      (refl, (ap (loaded load_model) missing, λ _. unused), λ other. add_file-view r d other saved)

  create_at-Inserts :
      (r : TaskRecord) (file : Option TaskFile) (d : Directory)
      → load_model (dump_yaml r) ≡ some r
      → find (keyed_by file_name (path_of r.task_id)) d.files ≡ file
      → Inserts load_model d r (create_at dump_yaml load_model canonical_digest is_yaml r file d)
  unfolding create_at
  create_at-Inserts r none d saved missing =
      ensures-reads (Inserts load_model d r) d (λ c. refl)
        (find_by_key dump_yaml load_model canonical_digest is_yaml r.key) _
        ((find_by_key-SameDirectory dump_yaml load_model canonical_digest is_yaml r.key).at d).same
        λ owner found. create_owned-Inserts r owner d saved missing found
  create_at-Inserts r (some f) d saved there =
      ensures-reads (Inserts load_model d r) d (λ c. refl)
        (read_file dump_yaml load_model canonical_digest is_yaml f) _
        ((read_file-SameDirectory dump_yaml load_model canonical_digest is_yaml f).at d).same
        λ current was_read.
          ensures-raise_if (Inserts load_model d r) d (λ c. refl) (not (f.content == dump_yaml r))
            task_id_conflict _
            λ same.
              let loads =
                (read_file-ok dump_yaml load_model canonical_digest is_yaml f d was_read).1 in
              let is_same : some current ≡ some r =
                sym loads
                ∙ ap load_model ((eq_iff f.content (dump_yaml r)).0 (ground arith))
                ∙ saved in
              let here : view load_model d r.task_id ≡ some r =
                ap (loaded load_model) there ∙ loads ∙ is_same in
              (
                ground (arith, is_same),
                (here, λ changed. cc),
                λ other.
                    kept-record_at dump_yaml load_model canonical_digest is_yaml (path_of r.task_id)
                      (path_of other) r d here,
              )

  -- Where a record is read back from the text that is written for it, `create` inserts it into the map
  -- from Task IDs to records: it either raises and leaves the directory as it is, or it returns the
  -- record, which the map has then, with what it had at every other path. What is returned is marked
  -- unchanged where the map had the record already, and changed where it had no record at the ID and no
  -- file of a record with its key.
  pub create-Inserts :
      (r : TaskRecord) (d : Directory)
      → load_model (dump_yaml r) ≡ some r
      → Inserts load_model d r (create dump_yaml load_model canonical_digest is_yaml r d)
  unfolding create
  create-Inserts r d saved =
      create_at-Inserts r (find (keyed_by file_name (path_of r.task_id)) d.files) d saved refl
