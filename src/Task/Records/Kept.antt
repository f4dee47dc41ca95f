-- ===== src/Task/Records/Kept.antt =====
-- The directory of Task records behind a write (`create`, `replace`, `cancel` of
-- src/researchctl/services/task_records.py).
use research_agent_ops.Base.{
  String, ◌≡◌, refl, sym, subst, ap, Bool, true, false, not, Option, none, some, ◌==◌, string_eq,
  eq_iff, arith, find, any, All, find-none, find-holds, if-holds, keyed_by, IsKeyed, update-IsKeyed,
  update-All_keyed, update-IsKeyed-IsKeyed,
}
use research_agent_ops.Errors.{Result, ok, task_not_found, immutable_task_identity, stale_task}
use research_agent_ops.Exec.{lift}
use research_agent_ops.Exec.Respects.{
  IsPreorder, Keep, Keep-IsPreorder, Respects, at-bind_reads, at-raise_if, at-or_raise,
}
use research_agent_ops.Store.Schema.{Datetime}
use research_agent_ops.Task.Policy.{canceled, task_state_eq}
use research_agent_ops.Task.Records.{
  TaskRecord, TaskFile, Directory, TaskWriteResult, file_name, path_of, add_file, set_file,
  read_file, load_file, load, find_by_key, result_of, create_at, create_owned, create,
  write_replacement, replace, with_cancel, cancel_loaded, cancel,
}
use research_agent_ops.Task.Records.Reads.{
  file_key, SameDirectory, read_rules, read_file-ok, find_by_key-none, read_file-SameDirectory,
  find_by_key-SameDirectory, create_at-SameDirectory,
}

module _ (dump_yaml : TaskRecord → String) (load_model : String → Option TaskRecord)
    (canonical_digest : TaskRecord → String) (is_yaml : String → Bool) where
  -- A file that holds the record that it is named after.
  pub record IsRecordFile (f : TaskFile) : Type 0 where
    pub held : TaskRecord
    pub loads : load_model f.content ≡ some held
    pub named : f.name ≡ path_of held.task_id

  pub record TasksWell (d : Directory) : Type 0 where
    pub paths : IsKeyed file_name d.files
    pub keys : IsKeyed (file_key load_model) d.files
    pub each : All IsRecordFile d.files

  pub Keep-TasksWell-IsPreorder : IsPreorder (Keep TasksWell)
  Keep-TasksWell-IsPreorder = Keep-IsPreorder TasksWell

  add_file-TasksWell :
      (r : TaskRecord) (d : Directory)
      → (load_model (dump_yaml r) ≡ some r)
      → find (keyed_by file_name (path_of r.task_id)) d.files ≡ none
      → any (keyed_by (file_key load_model) r.key) d.files ≡ false
      → TasksWell d
      → TasksWell (add_file (path_of r.task_id) (dump_yaml r) d)
  add_file-TasksWell r d saved missing unused w =
      let new : TaskFile = record { name = path_of r.task_id; content = dump_yaml r } in
      let its_key : file_key load_model new ≡ r.key = ground (arith, saved) in
      record {
        paths = (find-none (keyed_by file_name (path_of r.task_id)) d.files missing, w.paths);
        keys = (
          subst (λ c. any (keyed_by (file_key load_model) c) d.files ≡ false) (sym its_key) unused,
          w.keys,
        );
        each = (record { held = r; loads = saved; named = refl }, w.each);
      }

  -- What the rest of `create` is given by the search for the key.
  create_owned-TasksWell :
      (r : TaskRecord) (owner : Option TaskRecord) (d : Directory)
      → (load_model (dump_yaml r) ≡ some r)
      → find (keyed_by file_name (path_of r.task_id)) d.files ≡ none
      → find_by_key dump_yaml load_model canonical_digest is_yaml r.key d ≡ (ok owner, d)
      → Keep TasksWell d (create_owned dump_yaml load_model canonical_digest is_yaml r owner d).1
  unfolding create_owned
  create_owned-TasksWell r (some q) d saved missing found w = w
  create_owned-TasksWell r none d saved missing found w =
      add_file-TasksWell r d saved missing
        (find_by_key-none dump_yaml load_model canonical_digest is_yaml r.key d found).1 w

  create_at-TasksWell :
      (r : TaskRecord) (file : Option TaskFile) (d : Directory)
      → (load_model (dump_yaml r) ≡ some r)
      → find (keyed_by file_name (path_of r.task_id)) d.files ≡ file
      → Keep TasksWell d (create_at dump_yaml load_model canonical_digest is_yaml r file d).1
  unfolding create_at
  create_at-TasksWell r none d saved missing =
      at-bind_reads Keep-TasksWell-IsPreorder
        (find_by_key dump_yaml load_model canonical_digest is_yaml r.key) _ d
        ((find_by_key-SameDirectory dump_yaml load_model canonical_digest is_yaml r.key).at d).same
        λ owner found. create_owned-TasksWell r owner d saved missing found
  create_at-TasksWell r (some f) d saved found = λ w.
      subst TasksWell
        (sym
          ((create_at-SameDirectory dump_yaml load_model canonical_digest is_yaml r f).at d).same)
        w

  pub create-TasksWell :
      (r : TaskRecord)
      → load_model (dump_yaml r) ≡ some r
      → Respects (Keep TasksWell) (create dump_yaml load_model canonical_digest is_yaml r)
  unfolding create
  create-TasksWell r saved = record {
    at = λ d.
        create_at-TasksWell r (find (keyed_by file_name (path_of r.task_id)) d.files) d saved refl;
  }

  -- The file that is replaced keeps its key.
  set_file-TasksWell :
      (current r : TaskRecord) (f : TaskFile) (d : Directory)
      → (load_model (dump_yaml r) ≡ some r)
      → find (keyed_by file_name (path_of r.task_id)) d.files ≡ some f
      → load_model f.content ≡ some current
      → r.key ≡ current.key
      → TasksWell d
      → TasksWell (set_file (path_of r.task_id) (dump_yaml r) d)
  set_file-TasksWell current r f d saved found loads same_key w =
      let name = path_of r.task_id in
      let write = λ (x : TaskFile). record x { content = dump_yaml r } in
      let its_key : file_key load_model (write f) ≡ file_key load_model f =
        ground (arith, saved, loads, same_key) in
      let at_path : f.name ≡ name =
        (eq_iff f.name name).0 (find-holds (keyed_by file_name name) d.files found) in
      record {
        paths =
            update-IsKeyed file_name (keyed_by file_name name) write (λ x. refl) d.files w.paths;
        keys =
            update-IsKeyed-IsKeyed file_name (file_key load_model) name write d.files {x = f}
              w.paths found its_key w.keys;
        each =
            update-All_keyed file_name IsRecordFile name write d.files {x = f} w.paths found
              (λ _. record { held = r; loads = saved; named = at_path }) w.each;
      }

  write_replacement-TasksWell :
      (current r : TaskRecord) (f : TaskFile) (d : Directory)
      → (load_model (dump_yaml r) ≡ some r)
      → find (keyed_by file_name (path_of r.task_id)) d.files ≡ some f
      → load_model f.content ≡ some current
      → r.key ≡ current.key
      → Keep TasksWell d
          (write_replacement dump_yaml load_model canonical_digest is_yaml current f r d).1
  unfolding write_replacement
  write_replacement-TasksWell current r f d saved found loads same_key w =
      if-holds (λ (x : Result TaskWriteResult × Directory). TasksWell x.1)
        (f.content == dump_yaml r)
        (ok (result_of dump_yaml load_model canonical_digest is_yaml current false), d)
        (
          ok (result_of dump_yaml load_model canonical_digest is_yaml r true),
          set_file (path_of r.task_id) (dump_yaml r) d,
        )
        (λ _. w) (λ _. set_file-TasksWell current r f d saved found loads same_key w)

  pub replace-TasksWell :
      (task_id expected : String) (r : TaskRecord)
      → (load_model (dump_yaml r) ≡ some r)
      → Respects
          (Keep TasksWell)
          (replace dump_yaml load_model canonical_digest is_yaml task_id expected r)
  unfolding replace load_file
  replace-TasksWell task_id expected r saved = record {
    at = λ d.
        at-raise_if Keep-TasksWell-IsPreorder (not (r.task_id == task_id)) immutable_task_identity _
          d
          λ same_id.
            at-or_raise Keep-TasksWell-IsPreorder task_not_found
              (find (keyed_by file_name (path_of task_id)) d.files) _ d
              λ f found.
                at-bind_reads Keep-TasksWell-IsPreorder
                  (read_file dump_yaml load_model canonical_digest is_yaml f) _ d
                  ((read_file-SameDirectory dump_yaml load_model canonical_digest is_yaml f).at
                    d).same
                  λ current was_read.
                    at-raise_if Keep-TasksWell-IsPreorder
                      (not (canonical_digest current == expected)) stale_task _ d
                      λ _.
                        at-raise_if Keep-TasksWell-IsPreorder (not (r.key == current.key))
                          immutable_task_identity _ d
                          λ same_key.
                            write_replacement-TasksWell current r f d saved
                              (rw ((eq_iff r.task_id task_id).0 (ground arith)) found)
                              (read_file-ok dump_yaml load_model canonical_digest is_yaml f d
                                was_read).1
                              ((eq_iff r.key current.key).0 (ground arith));
  }

  pub load-SameDirectory :
      (task_id : String)
      → Respects SameDirectory (load dump_yaml load_model canonical_digest is_yaml task_id)
  unfolding load load_file
  load-SameDirectory task_id = search (read_rules, read_file-SameDirectory) depth 30

  -- where the record that the change makes is read back from the text that is written for it
  cancel_loaded-TasksWell :
      (task_id expected : String) (at : Datetime) (current : TaskRecord) (is_canceled : Bool)
      (d : Directory)
      → ((u : TaskRecord) → with_cancel current at ≡ ok u → load_model (dump_yaml u) ≡ some u)
      → Keep TasksWell d
          (cancel_loaded dump_yaml load_model canonical_digest is_yaml task_id expected at current
            is_canceled d).1
  unfolding cancel_loaded
  cancel_loaded-TasksWell task_id expected at current true d saved = λ w. w
  cancel_loaded-TasksWell task_id expected at current false d saved =
      at-bind_reads Keep-TasksWell-IsPreorder (lift (with_cancel current at)) _ d refl
        λ u made. (replace-TasksWell task_id expected u (saved u (ap (λ x. x.0) made))).at d

  pub cancel-TasksWell :
      (task_id expected : String) (at : Datetime) (d : Directory)
      → ((current u : TaskRecord)
          → load dump_yaml load_model canonical_digest is_yaml task_id d ≡ (ok current, d)
          → with_cancel current at ≡ ok u
          → load_model (dump_yaml u) ≡ some u)
      → Keep TasksWell d
          (cancel dump_yaml load_model canonical_digest is_yaml task_id expected at d).1
  unfolding cancel
  cancel-TasksWell task_id expected at d saved =
      at-bind_reads Keep-TasksWell-IsPreorder
        (load dump_yaml load_model canonical_digest is_yaml task_id) _ d
        ((load-SameDirectory task_id).at d).same
        λ current loaded.
          cancel_loaded-TasksWell task_id expected at current (task_state_eq current.state canceled)
            d (λ u. saved current u loaded)
