-- ===== src/Task/Samples.antt =====
-- Changes of a Task's state at concrete inputs: instances of the theorems with hypotheses.
use research_agent_ops.Base.{◌≡◌, refl, true, List, [], ◌∷◌, any}
use research_agent_ops.Task.Policy.{
  TaskState, ready, active, needs_review, done, task_state_eq, allowed_course, final_state,
  done_was_reviewed, can_be_done,
}

abbrev finished : List TaskState
finished = active ∷ needs_review ∷ done ∷ []

finished_allowed : allowed_course ready finished ≡ true
unfolding allowed_course
finished_allowed = refl

done_was_reviewed_example : any (task_state_eq needs_review) (ready ∷ finished) ≡ true
done_was_reviewed_example = done_was_reviewed ready finished (λ e. cc) finished_allowed refl

can_be_done_example :
    (course : List TaskState) × (allowed_course ready course ≡ true)
    × (final_state ready course ≡ done)
can_be_done_example = can_be_done ready (λ e. cc)
