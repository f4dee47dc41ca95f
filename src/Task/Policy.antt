-- ===== src/Task/Policy.antt =====
-- Changes of a Task's state (src/researchctl/services/task_policy.py).
use research_agent_ops.Base.{
  ◌≡◌, refl, ◌≢◌, ◌⊎◌, inl, inr, Bool, true, false, ◌&&◌, List, [], ◌∷◌, any, arith, ◌∙◌,
}

pub data TaskState : Type 0 where
  planned ready active blocked needs_review done canceled : TaskState

unfoldable pub task_state_eq : TaskState → TaskState → Bool
task_state_eq planned planned = true
task_state_eq ready ready = true
task_state_eq active active = true
task_state_eq blocked blocked = true
task_state_eq needs_review needs_review = true
task_state_eq done done = true
task_state_eq canceled canceled = true
task_state_eq _ _ = false

-- TASK_STATE_TRANSITIONS
unfoldable pub task_state_transitions : TaskState → List TaskState
task_state_transitions planned = planned ∷ ready ∷ canceled ∷ []
task_state_transitions ready = ready ∷ active ∷ canceled ∷ []
task_state_transitions active = active ∷ blocked ∷ needs_review ∷ canceled ∷ []
task_state_transitions blocked = blocked ∷ active ∷ needs_review ∷ canceled ∷ []
task_state_transitions needs_review = needs_review ∷ active ∷ done ∷ canceled ∷ []
task_state_transitions done = done ∷ []
task_state_transitions canceled = canceled ∷ []

unfoldable pub task_transition_allowed : TaskState → TaskState → Bool
unfolding task_state_transitions task_state_eq
task_transition_allowed current replacement =
    any (task_state_eq replacement) (task_state_transitions current)

-- A course of states, each change of which is allowed.
unfoldable pub allowed_course : TaskState → List TaskState → Bool
unfolding task_transition_allowed
allowed_course s [] = true
allowed_course s (t ∷ ts) = task_transition_allowed s t && allowed_course t ts

-- The state in which a course ends.
abbrev pub final_state : TaskState → List TaskState → TaskState
final_state s [] = s
final_state s (t ∷ ts) = final_state t ts

abbrev pub is_final : TaskState → Bool
is_final done = true
is_final canceled = true
is_final _ = false

pub final-next : (s t : TaskState) → is_final s ≡ true → task_transition_allowed s t ≡ true → t ≡ s
unfolding task_transition_allowed
final-next s t h k = ground arith

-- What comes ahead of `done`.
pub done-previous :
    (s : TaskState) → task_transition_allowed s done ≡ true → (s ≡ done) ⊎ (s ≡ needs_review)
unfolding task_transition_allowed
done-previous s h = ground arith

course-cons :
    (s t : TaskState) (ts : List TaskState)
    → allowed_course s (t ∷ ts) ≡ true
    → (task_transition_allowed s t ≡ true) × (allowed_course t ts ≡ true)
unfolding allowed_course
course-cons s t ts h = ground arith

is_done-cases : (s : TaskState) → (s ≡ done) ⊎ (s ≢ done)
is_done-cases done = inl refl
is_done-cases planned = inr (λ e. cc)
is_done-cases ready = inr (λ e. cc)
is_done-cases active = inr (λ e. cc)
is_done-cases blocked = inr (λ e. cc)
is_done-cases needs_review = inr (λ e. cc)
is_done-cases canceled = inr (λ e. cc)

-- A Task that is done or canceled stays so: every course of allowed changes from there ends where
-- it began.
final_states_stay :
    (s : TaskState) (course : List TaskState)
    → is_final s ≡ true
    → allowed_course s course ≡ true
    → final_state s course ≡ s
final_states_stay s [] h k = refl
final_states_stay s (t ∷ ts) h k =
    let (a, b) = course-cons s t ts k in
    let same = final-next s t h a in final_states_stay t ts (rw same h) b ∙ same

-- A course of allowed changes that ends in `done`, and begins in another state, passes through
-- `needs_review`.
pub done_was_reviewed :
    (s : TaskState) (course : List TaskState)
    → s ≢ done
    → allowed_course s course ≡ true
    → final_state s course ≡ done
    → any (task_state_eq needs_review) (s ∷ course) ≡ true
unfolding task_state_eq
done_was_reviewed s [] n h k = absurd (n k)
done_was_reviewed s (t ∷ ts) n h k =
    let (a, b) = course-cons s t ts h in
    elim (is_done-cases t) [
      | inl e ↦ elim (done-previous s (rw (← e) a)) [
        | inl same ↦ absurd (n same)
        | inr reviewed ↦ rw reviewed refl
      ]
      | inr other ↦ ground (arith, done_was_reviewed t ts other b k)
    ]

-- The course of allowed changes from each state that is not canceled to `done`.
abbrev course_to_done : TaskState → List TaskState
course_to_done planned = ready ∷ active ∷ needs_review ∷ done ∷ []
course_to_done ready = active ∷ needs_review ∷ done ∷ []
course_to_done active = needs_review ∷ done ∷ []
course_to_done blocked = needs_review ∷ done ∷ []
course_to_done needs_review = done ∷ []
course_to_done done = []
course_to_done canceled = []

-- From every state but `canceled` some course of allowed changes leads to `done`.
pub can_be_done :
    (s : TaskState)
    → s ≢ canceled
    → (course : List TaskState) × (allowed_course s course ≡ true) × (final_state s course ≡ done)
unfolding allowed_course
can_be_done planned n = (course_to_done planned, refl, refl)
can_be_done ready n = (course_to_done ready, refl, refl)
can_be_done active n = (course_to_done active, refl, refl)
can_be_done blocked n = (course_to_done blocked, refl, refl)
can_be_done needs_review n = (course_to_done needs_review, refl, refl)
can_be_done done n = (course_to_done done, refl, refl)
can_be_done canceled n = absurd (n refl)
