-- ===== src/Task/Service/Samples.antt =====
-- Writes of the application service at concrete inputs: instances of the theorems with hypotheses.
-- Texts stand for records here as far as these inputs need it.
use research_agent_ops.Base.{
  ◌≡◌, refl, String, Bool, true, Option, none, some, List, [], ◌∷◌, if◌then◌else◌, ◌==◌, string_eq,
}
use research_agent_ops.Json.{null}
use research_agent_ops.Task.Policy.{TaskState, needs_review, done, task_transition_allowed}
use research_agent_ops.Task.Records.{TaskRecord, Directory, load, replace}
use research_agent_ops.Task.Records.Swap.{view}
use research_agent_ops.Task.Service.{task_update}
use research_agent_ops.Task.Service.History.{
  update_task, serve, Leads, begin, after, final_tasks_stay, becomes_done,
}

abbrev in_review : TaskRecord
in_review = record {
  task_id = "t";
  key = "K-1";
  state = needs_review;
  created_at = 3;
  updated_at = 7;
  execution_domain = "lab";
  parent_task_id = none;
  others = null;
}

abbrev finished : TaskRecord
finished = record in_review { state = done; updated_at = 8 }

abbrev text_of : TaskState → String
text_of done = "done"
text_of _ = "needs_review"

abbrev dump : TaskRecord → String
dump r = text_of r.state

abbrev read : String → Option TaskRecord
read text =
    if text == "done"
    then some finished
    else if text == "needs_review"
    then some in_review
    else none

abbrev yaml : String → Bool
yaml name = true

abbrev directory_of : String → Directory
directory_of text = record { files = record { name = "t.yaml"; content = text } ∷ [] }

abbrev domains : List String
domains = "lab" ∷ []

finishes :
    view read
      (serve dump read dump yaml domains
        (update_task "t" "needs_review" finished)
        (directory_of "needs_review")).1
      "t"
    ≡ some finished
unfolding task_update load replace task_transition_allowed
finishes = refl

becomes_done_example : in_review.state ≡ needs_review
becomes_done_example =
    becomes_done dump read dump yaml domains (update_task "t" "needs_review" finished)
      (directory_of "needs_review") "t" in_review finished refl refl finishes (λ e. cc) refl

tries_again :
    Leads dump read dump yaml domains
      (directory_of "done")
      (serve dump read dump yaml domains (update_task "t" "done" in_review) (directory_of "done")).1
tries_again = after (update_task "t" "done" in_review) begin refl

final_tasks_stay_example :
    (r : TaskRecord) × (view read
        (serve dump read dump yaml domains
          (update_task "t" "done" in_review)
          (directory_of "done")).1
        "t"
      ≡ some r)
    × (r.state ≡ done)
final_tasks_stay_example =
    final_tasks_stay dump read dump yaml domains "t" finished tries_again refl refl
