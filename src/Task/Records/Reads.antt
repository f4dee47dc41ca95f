-- ===== src/Task/Records/Reads.antt =====
-- What the methods of `TaskRecordRepository` read (src/researchctl/services/task_records.py).
use research_agent_ops.Base.{
  String, ◌≡◌, refl, ◌∙◌, sym, subst, ap, Bool, false, not, Option, none, some, List, [], ◌∷◌, ◌==◌,
  string_eq, eq_iff, arith, any, select, keyed_by,
}
use research_agent_ops.Errors.{
  Result, ok, invalid_task_record, invalid_task_record_path, invalid_task_store_entry,
}
use research_agent_ops.Exec.{pure, ◌>>=◌}
use research_agent_ops.Exec.Respects.{
  IsPreorder, Keep, Keep-IsPreorder, Respects, Respects-bind, Respects-lift, Respects-pure,
  Respects-raise, Respects-or_raise, Respects-raise_if, Respects-gets, at-bind_reads, at-raise_if,
  at-or_raise, at-lift,
}
use research_agent_ops.Exec.Inversion.{bind-ok, or_raise-ok, raise_if-ok}
use research_agent_ops.Task.Records.{
  TaskRecord, TaskFile, Directory, path_of, insert_by_name, sort_files, read_file, read_files,
  list_records, has_task_key, only_match, find_by_key, create_at,
}

any-insert :
    (p : TaskFile → Bool) (f : TaskFile) (files : List TaskFile)
    → any p (insert_by_name f files) ≡ any p (f ∷ files)
unfolding insert_by_name
any-insert p f [] = refl
any-insert p f (g ∷ files) = ground (arith, any-insert p f files)

any-sort : (p : TaskFile → Bool) (files : List TaskFile) → any p (sort_files files) ≡ any p files
unfolding sort_files
any-sort p [] = refl
any-sort p (f ∷ files) = any-insert p f (sort_files files) ∙ ground (arith, any-sort p files)

any-of_select : {A : Type 0} (p : A → Bool) (xs : List A) → select p xs ≡ [] → any p xs ≡ false
any-of_select p [] h = refl
any-of_select p (x ∷ xs) h = ground (arith, any-of_select p xs)

-- The directory is as it was.
pub record SameDirectory (s t : Directory) : Type 0 where
  pub same : t ≡ s

pub SameDirectory-IsPreorder : IsPreorder SameDirectory
SameDirectory-IsPreorder = record {
  same = λ s. record { same = refl };
  then_ = λ s t u h k. record { same = k.same ∙ h.same };
}

pub ruleset read_rules = (
  SameDirectory-IsPreorder, Respects-bind, Respects-lift, Respects-pure, Respects-raise,
  Respects-or_raise, Respects-raise_if, Respects-gets,
)

only_match-SameDirectory : (rs : List TaskRecord) → Respects SameDirectory (only_match rs)
unfolding only_match
only_match-SameDirectory [] = search read_rules
only_match-SameDirectory (r ∷ []) = search read_rules
only_match-SameDirectory (r ∷ q ∷ rs) = search read_rules

-- The key of the record in a file.
abbrev pub file_key : (String → Option TaskRecord) → TaskFile → String
file_key load_model f = elim (load_model f.content) [ none ↦ "" | some r ↦ r.key ]

module _ (dump_yaml : TaskRecord → String) (load_model : String → Option TaskRecord)
    (canonical_digest : TaskRecord → String) (is_yaml : String → Bool) where
  pub read_file-ok :
      (f : TaskFile) (d : Directory) {r : TaskRecord} {d' : Directory}
      → read_file dump_yaml load_model canonical_digest is_yaml f d ≡ (ok r, d')
      → (d' ≡ d) × (load_model f.content ≡ some r) × (f.name ≡ path_of r.task_id)
  unfolding read_file
  read_file-ok f d {r} {d'} h =
      let (r', loads, h1) = or_raise-ok invalid_task_record (load_model f.content) _ d h in
      let (named, k) =
        raise_if-ok (not (f.name == path_of r'.task_id)) invalid_task_record_path (pure r') d h1 in
      let same : r' ≡ r = ground (arith, k) in
      (
        (λ i. (sym k i).1),
        loads ∙ ap some same,
        rw (← same) ((eq_iff f.name (path_of r'.task_id)).0 (ground arith)),
      )

  read_files-ok :
      (key : String) (files : List TaskFile) (d : Directory) {rs : List TaskRecord} {d' : Directory}
      → read_files dump_yaml load_model canonical_digest is_yaml files d ≡ (ok rs, d')
      → (d' ≡ d) × (any (keyed_by (file_key load_model) key) files ≡ any (has_task_key key) rs)
  unfolding read_files
  read_files-ok key [] d {rs} {d'} h =
      let empty : [] ≡ rs = ground (arith, h) in
      ((λ i. (sym h i).1), ap (any (has_task_key key)) empty)
  read_files-ok key (f ∷ files) d {rs} {d'} h =
      let (_, h1) = raise_if-ok (not (is_yaml f.name)) invalid_task_store_entry _ d h in
      let (r, e, h2) = bind-ok (read_file dump_yaml load_model canonical_digest is_yaml f) _ d h1 in
      let (stays, loads, _) = read_file-ok f d e in
      let h3 =
        subst
          (λ v.
            (read_files dump_yaml load_model canonical_digest is_yaml files >>= λ records.
            pure (r ∷ records))
              v
            ≡ (ok rs, d'))
          stays h2 in
      let (records, e', h4) =
        bind-ok (read_files dump_yaml load_model canonical_digest is_yaml files)
          (λ records. pure (r ∷ records)) d h3 in
      let (stays', rest) = read_files-ok key files d e' in
      let all : r ∷ records ≡ rs = ground (arith, h4) in
      (
        sym (ap (λ (x : Result (List TaskRecord) × Directory). x.1) h4) ∙ stays',
        rw (← all) (ground (arith, rest, loads)),
      )

  only_match-none :
      (rs : List TaskRecord) (d : Directory) {d' : Directory}
      → only_match rs d ≡ (ok none, d')
      → (d' ≡ d) × (rs ≡ [])
  unfolding only_match
  only_match-none [] d h = ((λ i. (sym h i).1), refl)
  only_match-none (r ∷ []) d h = absurd (ground (arith, h))
  only_match-none (r ∷ q ∷ rs) d h = absurd (ground (arith, h))

  -- No record has a key that is not found.
  pub find_by_key-none :
      (key : String) (d : Directory) {d' : Directory}
      → find_by_key dump_yaml load_model canonical_digest is_yaml key d ≡ (ok none, d')
      → (d' ≡ d) × (any (keyed_by (file_key load_model) key) d.files ≡ false)
  unfolding find_by_key list_records
  find_by_key-none key d {d'} h =
      let (rs, e, h1) =
        bind-ok (read_files dump_yaml load_model canonical_digest is_yaml (sort_files d.files)) _ d
          h in
      let (stays, same) = read_files-ok key (sort_files d.files) d e in
      let (stays', empty) = only_match-none (select (has_task_key key) rs) _ h1 in
      (
        stays' ∙ stays,
        sym (any-sort (keyed_by (file_key load_model) key) d.files)
            ∙ same
            ∙ any-of_select (has_task_key key) rs empty,
      )

  pub read_file-SameDirectory :
      (f : TaskFile)
      → Respects SameDirectory (read_file dump_yaml load_model canonical_digest is_yaml f)
  unfolding read_file
  read_file-SameDirectory f = search read_rules depth 30

  read_files-SameDirectory :
      (files : List TaskFile)
      → Respects SameDirectory (read_files dump_yaml load_model canonical_digest is_yaml files)
  unfolding read_files
  read_files-SameDirectory [] = search read_rules depth 30
  read_files-SameDirectory (f ∷ files) =
      let P = SameDirectory-IsPreorder in
      Respects-bind P _ _ (Respects-raise_if P (not (is_yaml f.name)) invalid_task_store_entry) λ _.
        Respects-bind P (read_file dump_yaml load_model canonical_digest is_yaml f) _
          (read_file-SameDirectory f)
          λ r.
            Respects-bind P (read_files dump_yaml load_model canonical_digest is_yaml files) _
              (read_files-SameDirectory files) λ records. Respects-pure P (r ∷ records)

  pub find_by_key-SameDirectory :
      (key : String)
      → Respects SameDirectory (find_by_key dump_yaml load_model canonical_digest is_yaml key)
  unfolding find_by_key list_records
  find_by_key-SameDirectory key =
      search (read_rules, read_files-SameDirectory, only_match-SameDirectory) depth 30

  pub create_at-SameDirectory :
      (r : TaskRecord) (f : TaskFile)
      → Respects SameDirectory (create_at dump_yaml load_model canonical_digest is_yaml r (some f))
  unfolding create_at
  create_at-SameDirectory r f = search (read_rules, read_file-SameDirectory) depth 30
