-- ===== src/Task/Records/Swap.antt =====
-- `replace` of src/researchctl/services/task_records.py, as a compare-and-swap on a map from Task
-- IDs to records.
use research_agent_ops.Base.{
  String, ◌≡◌, refl, ◌∙◌, sym, subst, ap, Bool, true, false, not, Option, none, some, ◌==◌,
  string_eq, eq_iff, arith, find, find-update_self, find-update_other, keyed_by, if◌then◌else◌,
  String-cases, inl, inr, Bool-cases,
}
use research_agent_ops.Errors.{
  Code, Result, ok, err, task_not_found, immutable_task_identity, stale_task,
}
use research_agent_ops.Exec.Ensures.{ensures-raise_if, ensures-or_raise, ensures-reads}
use research_agent_ops.Task.Records.{
  TaskRecord, TaskFile, Directory, TaskWriteResult, file_name, path_of, set_file, read_file,
  load_file, write_replacement, replace,
}
use research_agent_ops.Task.Records.Reads.{read_file-ok, read_file-SameDirectory}

abbrev pub loaded : (String → Option TaskRecord) → Option TaskFile → Option TaskRecord
loaded load_model none = none
loaded load_model (some f) = load_model f.content

-- The record in the first file at a path.
abbrev pub record_at : (String → Option TaskRecord) → Directory → String → Option TaskRecord
record_at load_model d name = loaded load_model (find (keyed_by file_name name) d.files)

-- The map that a directory stands for.
abbrev pub view : (String → Option TaskRecord) → Directory → String → Option TaskRecord
view load_model d task_id = record_at load_model d (path_of task_id)

-- A compare-and-swap of the record of an ID, expected under a digest: it raises and leaves the map as
-- it is, or the map had a record with that digest and the same key, and has the new one.
abbrev pub Swaps :
    (load_model : String → Option TaskRecord) (canonical_digest : TaskRecord → String)
    (d : Directory) (task_id expected : String) (r : TaskRecord)
    → Result TaskWriteResult × Directory
    → Type 0
Swaps load_model canonical_digest d task_id expected r (err c, d') = d' ≡ d
Swaps load_model canonical_digest d task_id expected r (ok result, d') =
    (current : TaskRecord) × (view load_model d task_id ≡ some current)
    × (canonical_digest current ≡ expected)
    × (r.key ≡ current.key)
    × (result.written ≡ r)
    × ((other : String)
        → view load_model d' other
          ≡ (if path_of task_id == path_of other then some r else view load_model d other))

apart_from :
    (name name' x : String) → (name == name') ≡ false → (x == name) ≡ true → (x == name') ≡ false
apart_from name name' x other e = rw ((eq_iff x name).0 e) other

module _ (dump_yaml : TaskRecord → String) (load_model : String → Option TaskRecord)
    (canonical_digest : TaskRecord → String) (is_yaml : String → Bool) where
  set_file-record_at :
      (name name' : String) (r : TaskRecord) (f : TaskFile) (d : Directory)
      → load_model (dump_yaml r) ≡ some r
      → find (keyed_by file_name name) d.files ≡ some f
      → record_at load_model (set_file name (dump_yaml r) d) name'
        ≡ (if name == name' then some r else record_at load_model d name')
  set_file-record_at name name' r f d saved found =
      let write = λ (x : TaskFile). record x { content = dump_yaml r } in
      elim (String-cases name name') [
        | inl same ↦
            rw ((eq_iff name name').1 same, ← same)
              (ap (loaded load_model)
                  (find-update_self (keyed_by file_name name) write d.files (λ y e. e) found)
                ∙ saved)
        | inr other ↦ rw other (
            ap (loaded load_model) (
              find-update_other (keyed_by file_name name') (keyed_by file_name name) write d.files
                (λ y e. let apart = apart_from name name' y.name other e in (apart, apart))))
      ]

  pub kept-record_at :
      (name name' : String) (r : TaskRecord) (d : Directory)
      → record_at load_model d name ≡ some r
      → record_at load_model d name'
        ≡ (if name == name' then some r else record_at load_model d name')
  kept-record_at name name' r d here = elim (String-cases name name') [
    | inl same ↦ rw ((eq_iff name name').1 same, ← same) here
    | inr other ↦ rw other refl
  ]

  write_replacement-Swaps :
      (current r : TaskRecord) (f : TaskFile) (d : Directory)
      → load_model (dump_yaml r) ≡ some r
      → find (keyed_by file_name (path_of r.task_id)) d.files ≡ some f
      → load_model f.content ≡ some current
      → r.key ≡ current.key
      → Swaps load_model canonical_digest d r.task_id
          (canonical_digest current)
          r
          (write_replacement dump_yaml load_model canonical_digest is_yaml current f r d)
  unfolding write_replacement
  write_replacement-Swaps current r f d saved found loads same_key =
      let here : view load_model d r.task_id ≡ some current =
        ap (loaded load_model) found ∙ loads in
      elim (Bool-cases (f.content == dump_yaml r)) [
        | inl e ↦
            let is_same : some current ≡ some r =
              sym loads ∙ ap load_model ((eq_iff f.content (dump_yaml r)).0 e) ∙ saved in
            rw e (
              current,
              here,
              refl,
              same_key,
              ground (arith, is_same),
              λ other. kept-record_at (path_of r.task_id) (path_of other) r d (here ∙ is_same),
            )
        | inr e ↦ rw e (
          current,
          here,
          refl,
          same_key,
          refl,
          λ other. set_file-record_at (path_of r.task_id) (path_of other) r f d saved found,
        )
      ]

  -- Where the new record is read back from the text that is written for it, `replace` is a
  -- compare-and-swap on the map from Task IDs to records: it either raises and leaves the directory as
  -- it is, or the map had a record at the ID, with the expected digest and the new record's key, and
  -- has the new record there, which is returned, and what it had at every other path.
  pub replace-Swaps :
      (task_id expected : String) (r : TaskRecord) (d : Directory)
      → load_model (dump_yaml r) ≡ some r
      → Swaps load_model canonical_digest d task_id expected r
          (replace dump_yaml load_model canonical_digest is_yaml task_id expected r d)
  unfolding replace load_file
  replace-Swaps task_id expected r d saved =
      let Q = Swaps load_model canonical_digest d task_id expected r in
      let fail = λ (c : Code). refl in
      ensures-raise_if Q d fail (not (r.task_id == task_id)) immutable_task_identity _ λ same_id.
        ensures-or_raise Q d fail task_not_found
          (find (keyed_by file_name (path_of task_id)) d.files) _
          λ f found.
            ensures-reads Q d fail (read_file dump_yaml load_model canonical_digest is_yaml f) _
              ((read_file-SameDirectory dump_yaml load_model canonical_digest is_yaml f).at d).same
              λ current was_read.
                ensures-raise_if Q d fail (not (canonical_digest current == expected)) stale_task _
                  λ digest.
                    ensures-raise_if Q d fail (not (r.key == current.key)) immutable_task_identity _
                      λ same_key.
                        let same = (eq_iff r.task_id task_id).0 (ground arith) in
                        let at_expected =
                          (eq_iff (canonical_digest current) expected).0 (ground arith) in
                        let run =
                          write_replacement dump_yaml load_model canonical_digest is_yaml current f
                            r d in
                        subst (λ x. Swaps load_model canonical_digest d task_id x r run) at_expected
                          (subst
                            (λ x.
                              Swaps load_model canonical_digest d x (canonical_digest current) r
                                run)
                            same
                            (write_replacement-Swaps current r f d saved
                              (subst (λ x. find (keyed_by file_name (path_of x)) d.files ≡ some f)
                                (sym same) found)
                              (read_file-ok dump_yaml load_model canonical_digest is_yaml f d
                                was_read).1
                              ((eq_iff r.key current.key).0 (ground arith))))
