-- ===== src/Task/Records/Cancel.antt =====
-- `cancel` of src/researchctl/services/task_records.py, on the map from Task IDs to records.
use research_agent_ops.Base.{
  String, ◌≡◌, refl, ◌∙◌, sym, ap, Bool, true, false, Option, some, ◌==◌, string_eq, arith, find,
  keyed_by, if◌then◌else◌,
}
use research_agent_ops.Errors.{Result, ok, err, task_not_found}
use research_agent_ops.Exec.{lift}
use research_agent_ops.Exec.Ensures.{ensures-reads}
use research_agent_ops.Exec.Inversion.{or_raise-ok}
use research_agent_ops.Store.Schema.{Datetime}
use research_agent_ops.Task.Policy.{
  TaskState, canceled, task_state_eq, planned, ready, active, blocked, needs_review, done,
}
use research_agent_ops.Task.Records.{
  TaskRecord, Directory, TaskWriteResult, file_name, path_of, with_cancel, load_file, load,
  cancel_loaded, cancel,
}
use research_agent_ops.Task.Records.Reads.{read_file-ok}
use research_agent_ops.Task.Records.Kept.{load-SameDirectory}
use research_agent_ops.Task.Records.Swap.{loaded, view, kept-record_at, Swaps, replace-Swaps}

-- A record is canceled: a raise leaves the map as it is; else the map had a record at the ID, and has
-- a canceled one with its key there, which is the one it had where that was canceled.
abbrev pub Cancels :
    (load_model : String → Option TaskRecord) (d : Directory) (task_id : String)
    → Result TaskWriteResult × Directory
    → Type 0
Cancels load_model d task_id (err c, d') = d' ≡ d
Cancels load_model d task_id (ok result, d') =
    (current : TaskRecord) × (view load_model d task_id ≡ some current)
    × (result.written.state ≡ canceled)
    × (result.written.key ≡ current.key)
    × (task_state_eq current.state canceled ≡ true → result.written ≡ current)
    × ((other : String)
        → view load_model d' other ≡ (
            if path_of task_id == path_of other
            then some result.written
            else view load_model d other))

with_cancel-ok :
    (current u : TaskRecord) (at : Datetime)
    → with_cancel current at ≡ ok u
    → (u.state ≡ canceled) × (u.key ≡ current.key)
with_cancel-ok current u at h =
    let made : record current { state = canceled; updated_at = at.instant } ≡ u =
      ground (arith, h) in
    (ap (λ (r : TaskRecord). r.state) (sym made), ap (λ (r : TaskRecord). r.key) (sym made))

state-canceled : (s : TaskState) → task_state_eq s canceled ≡ true → s ≡ canceled
unfolding task_state_eq
state-canceled canceled h = refl
state-canceled planned h = cc
state-canceled ready h = cc
state-canceled active h = cc
state-canceled blocked h = cc
state-canceled needs_review h = cc
state-canceled done h = cc

module _ (dump_yaml : TaskRecord → String) (load_model : String → Option TaskRecord)
    (canonical_digest : TaskRecord → String) (is_yaml : String → Bool) where
  pub load-view :
      (task_id : String) (d : Directory) {r : TaskRecord}
      → load dump_yaml load_model canonical_digest is_yaml task_id d ≡ (ok r, d)
      → view load_model d task_id ≡ some r
  unfolding load load_file
  load-view task_id d {r} h =
      let (f, found, read) =
        or_raise-ok task_not_found (find (keyed_by file_name (path_of task_id)) d.files) _ d h in
      ap (loaded load_model) found
      ∙ (read_file-ok dump_yaml load_model canonical_digest is_yaml f d read).1

  Swaps-Cancels :
      (task_id expected : String) (at : Datetime) (current u : TaskRecord) (d : Directory)
      (o : Result TaskWriteResult × Directory)
      → view load_model d task_id ≡ some current
      → task_state_eq current.state canceled ≡ false
      → with_cancel current at ≡ ok u
      → Swaps load_model canonical_digest d task_id expected u o
      → Cancels load_model d task_id o
  Swaps-Cancels task_id expected at current u d (err c, d') here live made swapped = swapped
  Swaps-Cancels task_id expected at current u d (ok result, d') here live made
        (current', here', digest, same_key, written, all) =
      (
        current,
        here,
        ap (λ (r : TaskRecord). r.state) written ∙ (with_cancel-ok current u at made).0,
        ap (λ (r : TaskRecord). r.key) written ∙ (with_cancel-ok current u at made).1,
        λ is_canceled. cc,
        λ other.
            all other
            ∙ ap (λ r. if path_of task_id == path_of other then some r else view load_model d other)
                (sym written),
      )

  cancel_loaded-Cancels :
      (task_id expected : String) (at : Datetime) (current : TaskRecord) (b : Bool) (d : Directory)
      → task_state_eq current.state canceled ≡ b
      → view load_model d task_id ≡ some current
      → ((u : TaskRecord) → with_cancel current at ≡ ok u → load_model (dump_yaml u) ≡ some u)
      → Cancels load_model d task_id (
          cancel_loaded dump_yaml load_model canonical_digest is_yaml task_id expected at current b
            d)
  unfolding cancel_loaded
  cancel_loaded-Cancels task_id expected at current true d is_canceled here saved = (
    current,
    here,
    state-canceled current.state is_canceled,
    refl,
    λ _. refl,
    λ other.
        kept-record_at dump_yaml load_model canonical_digest is_yaml (path_of task_id)
          (path_of other) current d here,
  )
  cancel_loaded-Cancels task_id expected at current false d live here saved =
      ensures-reads (Cancels load_model d task_id) d (λ c. refl) (lift (with_cancel current at)) _
        refl
        λ u made.
          let made' = ap (λ x. x.0) made in
          Swaps-Cancels task_id expected at current u d _ here live made' (
            replace-Swaps dump_yaml load_model canonical_digest is_yaml task_id expected u d
              (saved u made'))

  -- Where the canceled record is read back from the text that is written for it, `cancel` either raises
  -- and leaves the directory as it is, or the map from Task IDs to records had a record at the ID, and
  -- has a canceled record with the same key there, which is returned, and what it had at every other
  -- path. A record that was canceled already is kept.
  pub cancel-Cancels :
      (task_id expected : String) (at : Datetime) (d : Directory)
      → ((current u : TaskRecord)
          → load dump_yaml load_model canonical_digest is_yaml task_id d ≡ (ok current, d)
          → with_cancel current at ≡ ok u
          → load_model (dump_yaml u) ≡ some u)
      → Cancels load_model d task_id
          (cancel dump_yaml load_model canonical_digest is_yaml task_id expected at d)
  unfolding cancel
  cancel-Cancels task_id expected at d saved =
      ensures-reads (Cancels load_model d task_id) d (λ c. refl)
        (load dump_yaml load_model canonical_digest is_yaml task_id) _
        ((load-SameDirectory dump_yaml load_model canonical_digest is_yaml task_id).at d).same
        λ current was_read.
          cancel_loaded-Cancels task_id expected at current (task_state_eq current.state canceled) d
            refl (load-view task_id d was_read) (λ u. saved current u was_read)
