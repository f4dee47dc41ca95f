-- ===== src/Task/Service/History.antt =====
-- A history of the writes of Task records by the application service
-- (src/researchctl/services/application.py): one after the other, each with any outcome.
use research_agent_ops.Base.{
  String, ◌≡◌, ◌≢◌, refl, ◌∙◌, sym, subst, ap, Bool, true, Option, some, List, inl, inr,
}
use research_agent_ops.Errors.{ok}
use research_agent_ops.Exec.{Exec}
use research_agent_ops.Store.Schema.{Datetime}
use research_agent_ops.Task.Policy.{
  done, needs_review, is_final, final-next, done-previous, task_transition_allowed,
}
use research_agent_ops.Task.Records.{TaskRecord, Directory, TaskWriteResult, with_cancel, load}
use research_agent_ops.Task.Records.Swap.{view}
use research_agent_ops.Task.Service.{task_create, task_update, task_cancel}
use research_agent_ops.Task.Service.Allowed.{
  Progress, same_record, create-Moves, update-Moves, cancel-Moves,
}

pub data ServiceCall : Type 0 where
  create_task : TaskRecord → ServiceCall
  update_task : String → String → TaskRecord → ServiceCall
  cancel_task : String → String → Datetime → ServiceCall

module _ (dump_yaml : TaskRecord → String) (load_model : String → Option TaskRecord)
    (canonical_digest : TaskRecord → String) (is_yaml : String → Bool)
    (configured_domains : List String) where
  abbrev pub serve : ServiceCall → Exec Directory TaskWriteResult
  serve (create_task r) =
      task_create dump_yaml load_model canonical_digest is_yaml configured_domains r
  serve (update_task task_id expected r) =
      task_update dump_yaml load_model canonical_digest is_yaml configured_domains task_id expected
        r
  serve (cancel_task task_id expected at) =
      task_cancel dump_yaml load_model canonical_digest is_yaml configured_domains task_id expected
        at

  -- The record that a call may write is read back from the text that is written for it.
  abbrev pub Persists : Directory → ServiceCall → Type 0
  Persists d (create_task r) = load_model (dump_yaml r) ≡ some r
  Persists d (update_task task_id expected r) = load_model (dump_yaml r) ≡ some r
  Persists d (cancel_task task_id expected at) =
      (current u : TaskRecord)
      → load dump_yaml load_model canonical_digest is_yaml task_id d ≡ (ok current, d)
      → with_cancel current at ≡ ok u
      → load_model (dump_yaml u) ≡ some u

  -- The directories that calls lead to, from one on.
  pub data Leads (d : Directory) : Directory → Type 0 where
    begin : Leads d d
    after : {e : Directory} (c : ServiceCall) → Leads d e → Persists e c → Leads d (serve c e).1

  serve-Progress :
      (c : ServiceCall) (d : Directory) → Persists d c → Progress load_model d (serve c d).1
  serve-Progress (create_task r) d saved =
      create-Moves dump_yaml load_model canonical_digest is_yaml configured_domains r d saved
  serve-Progress (update_task task_id expected r) d saved =
      update-Moves dump_yaml load_model canonical_digest is_yaml configured_domains task_id expected
        r d saved
  serve-Progress (cancel_task task_id expected at) d saved =
      cancel-Moves dump_yaml load_model canonical_digest is_yaml configured_domains task_id expected
        at d saved

  -- Calls of `task_create`, `task_update` and `task_cancel`, whether they raise or return, keep a Task
  -- that the directory has as done or canceled: they lead to directories that have a record at its ID in
  -- the same state, where each record that a call may write is read back from the text that is written
  -- for it.
  pub final_tasks_stay :
      {d e : Directory} (task_id : String) (r : TaskRecord)
      → Leads d e
      → view load_model d task_id ≡ some r
      → is_final r.state ≡ true
      → (r' : TaskRecord) × (view load_model e task_id ≡ some r') × (r'.state ≡ r.state)
  final_tasks_stay task_id r begin there is_last = (r, there, refl)
  final_tasks_stay task_id r (after {e} c before saved) there is_last =
      let (q, then_, same) = final_tasks_stay task_id r before there is_last in
      let (r', now, allowed) = serve-Progress c e saved task_id q then_ in
      (
        r',
        now,
        final-next q.state r'.state (subst (λ s. is_final s ≡ true) (sym same) is_last) allowed
            ∙ same,
      )

  -- A Task that a call of `task_create`, `task_update` or `task_cancel` finds in another state than
  -- done and leaves done was in needs_review, where the record that the call may write is read back
  -- from the text that is written for it.
  pub becomes_done :
      (c : ServiceCall) (d : Directory) (task_id : String) (r r' : TaskRecord)
      → Persists d c
      → view load_model d task_id ≡ some r
      → view load_model (serve c d).1 task_id ≡ some r'
      → r.state ≢ done
      → r'.state ≡ done
      → r.state ≡ needs_review
  becomes_done c d task_id r r' saved before now undone is_done =
      let (q, now', allowed) = serve-Progress c d saved task_id r before in
      let same : q.state ≡ done =
        ap (λ (x : TaskRecord). x.state) (same_record (sym now' ∙ now)) ∙ is_done in
      elim (done-previous r.state
        (subst (λ s. task_transition_allowed r.state s ≡ true) same allowed)) [
          | inl e ↦ absurd (undone e)
          | inr e ↦ e
        ]
