-- ===== src/Task/Service/Allowed.antt =====
-- What the writes of the application service do to the records of a directory
-- (src/researchctl/services/application.py), by the table of changes of a Task's state
-- (src/researchctl/services/task_policy.py).
use research_agent_ops.Base.{
  String, ◌≡◌, refl, ◌∙◌, sym, subst, ap, Bool, true, false, not, ◌||◌, Option, none, some, List,
  ◌==◌, string_eq, nat_eq, leb, eq_iff, arith, if◌then◌else◌, String-cases, inl, inr,
}
use research_agent_ops.Errors.{
  Code, Result, ok, err, immutable_task_identity, immutable_task_creation_time,
  invalid_task_transition, invalid_task_update_time, task_terminal, invalid_task_initial_state,
}
use research_agent_ops.Exec.Ensures.{ensures-raise_if, ensures-reads}
use research_agent_ops.Exec.Respects.{Respects}
use research_agent_ops.Store.Schema.{Datetime}
use research_agent_ops.Task.Policy.{
  TaskState, planned, ready, active, blocked, needs_review, done, canceled, task_state_eq,
  task_transition_allowed,
}
use research_agent_ops.Task.Records.{
  TaskRecord, Directory, TaskWriteResult, path_of, load, with_cancel,
}
use research_agent_ops.Task.Records.Reads.{SameDirectory, read_rules}
use research_agent_ops.Task.Records.Kept.{load-SameDirectory}
use research_agent_ops.Task.Records.Swap.{record_at, view, Swaps, replace-Swaps}
use research_agent_ops.Task.Records.Insert.{Inserts, create-Inserts}
use research_agent_ops.Task.Records.Cancel.{Cancels, cancel-Cancels, load-view}
use research_agent_ops.Task.Service.{
  load_parent, validate_task_policy, task_create, write_update, task_update, task_cancel,
}

-- Every record that the map has stays in it, up to an allowed change of its state.
abbrev pub Progress : (load_model : String → Option TaskRecord) (d d' : Directory) → Type 0
Progress load_model d d' =
    (task_id : String) (r : TaskRecord)
    → view load_model d task_id ≡ some r
    → (r' : TaskRecord) × (view load_model d' task_id ≡ some r')
      × (task_transition_allowed r.state r'.state ≡ true)

stays_allowed : (s : TaskState) → task_transition_allowed s s ≡ true
unfolding task_transition_allowed
stays_allowed planned = refl
stays_allowed ready = refl
stays_allowed active = refl
stays_allowed blocked = refl
stays_allowed needs_review = refl
stays_allowed done = refl
stays_allowed canceled = refl

cancel_allowed :
    (s : TaskState) → task_state_eq s done ≡ false → task_transition_allowed s canceled ≡ true
unfolding task_transition_allowed task_state_eq
cancel_allowed planned h = refl
cancel_allowed ready h = refl
cancel_allowed active h = refl
cancel_allowed blocked h = refl
cancel_allowed needs_review h = refl
cancel_allowed done h = cc
cancel_allowed canceled h = refl

pub same_record : {r q : TaskRecord} → some r ≡ some q → r ≡ q
same_record h = ground (arith, h)

only_record :
    (changed : Bool) (q r : TaskRecord) → some q ≡ (if changed then none else some r) → q ≡ r
only_record true q r h = cc
only_record false q r h = same_record h

module _ (load_model : String → Option TaskRecord) where
  pub Progress-same : (d d' : Directory) → d' ≡ d → Progress load_model d d'
  Progress-same d d' same task_id r h =
      (r, subst (λ x. view load_model x task_id ≡ some r) (sym same) h, stays_allowed r.state)

  Progress-change :
      (task_id : String) (u : TaskRecord) (d d' : Directory)
      → ((r : TaskRecord)
          → view load_model d task_id ≡ some r
          → task_transition_allowed r.state u.state ≡ true)
      → ((other : String)
          → view load_model d' other
            ≡ (if path_of task_id == path_of other then some u else view load_model d other))
      → Progress load_model d d'
  Progress-change task_id u d d' allowed all x r h =
      elim (String-cases (path_of task_id) (path_of x)) [
        | inl same ↦ (
          u,
          all x
              ∙ ap (λ b. if b then some u else view load_model d x)
                  ((eq_iff (path_of task_id) (path_of x)).1 same),
          allowed r (ap (record_at load_model d) same ∙ h),
        )
        | inr other ↦ (r, all x ∙ rw other h, stays_allowed r.state)
      ]

  module _ (canonical_digest : TaskRecord → String) where
    Swaps-Progress :
        (task_id expected : String) (current u : TaskRecord) (d : Directory)
        (o : Result TaskWriteResult × Directory)
        → view load_model d task_id ≡ some current
        → task_transition_allowed current.state u.state ≡ true
        → Swaps load_model canonical_digest d task_id expected u o
        → Progress load_model d o.1
    Swaps-Progress task_id expected current u d (err c, d') here allowed swapped =
        Progress-same d d' swapped
    Swaps-Progress task_id expected current u d (ok result, d') here allowed
          (current', here', digest, same_key, written, all) =
        Progress-change task_id u d d'
          (λ r h.
            subst (λ (q : TaskRecord). task_transition_allowed q.state u.state ≡ true)
              (same_record (sym here ∙ h)) allowed)
          all

  Inserts-Progress :
      (r : TaskRecord) (d : Directory) (o : Result TaskWriteResult × Directory)
      → Inserts load_model d r o
      → Progress load_model d o.1
  Inserts-Progress r d (err c, d') inserted = Progress-same d d' inserted
  Inserts-Progress r d (ok result, d') (written, (before, unused), all) =
      Progress-change r.task_id r d d'
        (λ q h.
          subst (λ (x : TaskRecord). task_transition_allowed q.state x.state ≡ true)
            (only_record result.changed q r (sym h ∙ before)) (stays_allowed q.state))
        all

  Cancels-Progress :
      (task_id : String) (current : TaskRecord) (d : Directory)
      (o : Result TaskWriteResult × Directory)
      → view load_model d task_id ≡ some current
      → task_state_eq current.state done ≡ false
      → Cancels load_model d task_id o
      → Progress load_model d o.1
  Cancels-Progress task_id current d (err c, d') here live canceled_ = Progress-same d d' canceled_
  Cancels-Progress task_id current d (ok result, d') here live
        (current', here', is_canceled, same_key, kept, all) =
      Progress-change task_id result.written d d'
        (λ r h.
          let live' =
            subst (λ (q : TaskRecord). task_state_eq q.state done ≡ false)
              (same_record (sym here ∙ h)) live in
          subst (λ state. task_transition_allowed r.state state ≡ true) (sym is_canceled)
            (cancel_allowed r.state live'))
        all

module _ (dump_yaml : TaskRecord → String) (load_model : String → Option TaskRecord)
    (canonical_digest : TaskRecord → String) (is_yaml : String → Bool)
    (configured_domains : List String) where
  -- The directory that a run leaves keeps the records of the one before, up to allowed changes.
  abbrev Moves : Directory → Result TaskWriteResult × Directory → Type 0
  Moves d o = Progress load_model d o.1

  raised : (d : Directory) (c : Code) → Moves d (err c, d)
  raised d c = Progress-same load_model d d refl

  load_parent-SameDirectory :
      (parent : Option String)
      → Respects SameDirectory
          (load_parent dump_yaml load_model canonical_digest is_yaml configured_domains parent)
  unfolding load_parent
  load_parent-SameDirectory none = search read_rules
  load_parent-SameDirectory (some task_id) = search (read_rules, load-SameDirectory) depth 30

  validate-SameDirectory :
      (r : TaskRecord)
      → Respects SameDirectory
          (validate_task_policy dump_yaml load_model canonical_digest is_yaml configured_domains r)
  unfolding validate_task_policy
  validate-SameDirectory r = search (read_rules, load_parent-SameDirectory) depth 30

  pub create-Moves :
      (r : TaskRecord) (d : Directory)
      → load_model (dump_yaml r) ≡ some r
      → Moves d (task_create dump_yaml load_model canonical_digest is_yaml configured_domains r d)
  unfolding task_create
  create-Moves r d saved =
      ensures-raise_if (Moves d) d (raised d) (not (task_state_eq r.state planned))
        invalid_task_initial_state _
        λ _.
          ensures-reads (Moves d) d (raised d)
            (validate_task_policy dump_yaml load_model canonical_digest is_yaml configured_domains
              r)
            _ ((validate-SameDirectory r).at d).same
            λ _ _.
              Inserts-Progress load_model r d _
                (create-Inserts dump_yaml load_model canonical_digest is_yaml r d saved)

  write-Moves :
      (task_id expected : String) (current r : TaskRecord) (same_digest : Bool) (d : Directory)
      → load_model (dump_yaml r) ≡ some r
      → view load_model d task_id ≡ some current
      → task_transition_allowed current.state r.state ≡ true
      → Moves d (
          write_update dump_yaml load_model canonical_digest is_yaml configured_domains task_id
            expected current r same_digest d)
  unfolding write_update
  write-Moves task_id expected current r true d saved here allowed =
      Progress-same load_model d d refl
  write-Moves task_id expected current r false d saved here allowed =
      ensures-raise_if (Moves d) d (raised d) (leb r.updated_at current.updated_at)
        invalid_task_update_time _
        λ _.
          Swaps-Progress load_model canonical_digest task_id expected current r d _ here allowed
            (replace-Swaps dump_yaml load_model canonical_digest is_yaml task_id expected r d saved)

  pub update-Moves :
      (task_id expected : String) (r : TaskRecord) (d : Directory)
      → load_model (dump_yaml r) ≡ some r
      → Moves d (
          task_update dump_yaml load_model canonical_digest is_yaml configured_domains task_id
            expected r d)
  unfolding task_update
  update-Moves task_id expected r d saved =
      ensures-reads (Moves d) d (raised d)
        (load dump_yaml load_model canonical_digest is_yaml task_id) _
        ((load-SameDirectory dump_yaml load_model canonical_digest is_yaml task_id).at d).same
        λ current was_read.
          ensures-raise_if (Moves d) d (raised d)
            (not (r.task_id == current.task_id) || not (r.key == current.key))
            immutable_task_identity _
            λ _.
              ensures-raise_if (Moves d) d (raised d) (not (r.created_at == current.created_at))
                immutable_task_creation_time _
                λ _.
                  ensures-raise_if (Moves d) d (raised d)
                    (not (task_transition_allowed current.state r.state)) invalid_task_transition _
                    λ allowed.
                      ensures-reads (Moves d) d (raised d)
                        (validate_task_policy dump_yaml load_model canonical_digest is_yaml
                          configured_domains r)
                        _ ((validate-SameDirectory r).at d).same
                        λ _ _.
                          write-Moves task_id expected current r
                            (canonical_digest current == canonical_digest r) d saved
                            (load-view dump_yaml load_model canonical_digest is_yaml task_id d
                              was_read)
                            (ground (arith, allowed))

  pub cancel-Moves :
      (task_id expected : String) (at : Datetime) (d : Directory)
      → ((current u : TaskRecord)
          → load dump_yaml load_model canonical_digest is_yaml task_id d ≡ (ok current, d)
          → with_cancel current at ≡ ok u
          → load_model (dump_yaml u) ≡ some u)
      → Moves d (
          task_cancel dump_yaml load_model canonical_digest is_yaml configured_domains task_id
            expected at d)
  unfolding task_cancel
  cancel-Moves task_id expected at d saved =
      ensures-reads (Moves d) d (raised d)
        (load dump_yaml load_model canonical_digest is_yaml task_id) _
        ((load-SameDirectory dump_yaml load_model canonical_digest is_yaml task_id).at d).same
        λ current was_read.
          ensures-raise_if (Moves d) d (raised d) (task_state_eq current.state done) task_terminal _
            λ live.
              Cancels-Progress load_model task_id current d _
                (load-view dump_yaml load_model canonical_digest is_yaml task_id d was_read) live
                (cancel-Cancels dump_yaml load_model canonical_digest is_yaml task_id expected at d
                  saved)
