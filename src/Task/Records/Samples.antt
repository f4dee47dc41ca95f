-- ===== src/Task/Records/Samples.antt =====
-- A directory of Task records and its calls at concrete inputs: instances of the theorems with
-- hypotheses. Texts stand for records here as far as these inputs need it.
use research_agent_ops.Base.{
  ◌≡◌, refl, sym, ap, subst, ◌∙◌, String, Bool, true, Option, none, some, [], ◌∷◌, if◌then◌else◌,
  ◌==◌, string_eq,
}
use research_agent_ops.Errors.{Result, ok, err}
use research_agent_ops.Json.{null}
use research_agent_ops.Store.Schema.{Datetime}
use research_agent_ops.Task.Policy.{ready, active, canceled, TaskState}
use research_agent_ops.Task.Records.{
  TaskRecord, Directory, with_cancel, load, create, replace, cancel,
}
use research_agent_ops.Task.Records.Kept.{TasksWell}
use research_agent_ops.Task.Records.Swap.{Swaps, replace-Swaps}
use research_agent_ops.Task.Records.Insert.{Inserts, create-Inserts}
use research_agent_ops.Task.Records.Cancel.{Cancels, cancel-Cancels}
use research_agent_ops.Task.Records.History.{
  create_, replace_, Reaches, here, next, tasks_stay_well,
}

abbrev task : TaskState → TaskRecord
task s = record {
  task_id = "t";
  key = "K-1";
  state = s;
  created_at = 3;
  updated_at = 7;
  execution_domain = "lab";
  parent_task_id = none;
  others = null;
}

abbrev text_of : TaskState → String
text_of active = "active"
text_of canceled = "canceled"
text_of _ = "ready"

abbrev dump : TaskRecord → String
dump r = text_of r.state

abbrev read : String → Option TaskRecord
read text =
    if text == "active"
    then some (task active)
    else if text == "canceled"
    then some (task canceled)
    else if text == "ready"
    then some (task ready)
    else none

abbrev yaml : String → Bool
yaml name = true

abbrev one_task : Directory
one_task = record { files = record { name = "t.yaml"; content = "ready" } ∷ [] }

abbrev at_seven : Datetime
at_seven = record { instant = 7; aware = true }

create-Inserts_example :
    Inserts read
      (record { files = [] })
      (task ready)
      (create dump read dump yaml (task ready) record { files = [] })
create-Inserts_example =
    create-Inserts dump read dump yaml (task ready) (record { files = [] }) refl

replace-Swaps_example :
    Swaps read dump one_task "t" "ready"
      (task active)
      (replace dump read dump yaml "t" "ready" (task active) one_task)
replace-Swaps_example = replace-Swaps dump read dump yaml "t" "ready" (task active) one_task refl

-- The value of a result.
abbrev value_or : TaskRecord → Result TaskRecord → TaskRecord
value_or r (ok a) = a
value_or r (err c) = r

loads_ready : load dump read dump yaml "t" one_task ≡ (ok (task ready), one_task)
unfolding load
loads_ready = refl

saves_canceled :
    (current u : TaskRecord)
    → load dump read dump yaml "t" one_task ≡ (ok current, one_task)
    → with_cancel current at_seven ≡ ok u
    → read (dump u) ≡ some u
saves_canceled current u loaded made =
    let is_ready : task ready ≡ current =
      ap (λ x. value_or (task ready) x.0) (sym loads_ready ∙ loaded) in
    let is_canceled : task canceled ≡ u =
      ap (λ r. value_or (task canceled) (with_cancel r at_seven)) is_ready
      ∙ ap (value_or (task canceled)) made in
    subst (λ r. read (dump r) ≡ some r) is_canceled refl

cancel-Cancels_example :
    Cancels read one_task "t" (cancel dump read dump yaml "t" "ready" at_seven one_task)
cancel-Cancels_example =
    cancel-Cancels dump read dump yaml "t" "ready" at_seven one_task saves_canceled

-- The Task is created, and then active.
created :
    Reaches dump read dump yaml
      (record { files = [] })
      (create dump read dump yaml (task ready) record { files = [] }).1
created = next (create_ (task ready)) here refl

activated :
    Reaches dump read dump yaml
      (record { files = [] })
      (replace dump read dump yaml "t" "ready"
        (task active)
        (create dump read dump yaml (task ready) record { files = [] }).1).1
activated = next (replace_ "t" "ready" (task active)) created refl

starts_well : TasksWell dump read dump yaml record { files = [] }
starts_well = record { paths = tt; keys = tt; each = tt }

tasks_stay_well_example :
    TasksWell dump read dump yaml
      (replace dump read dump yaml "t" "ready"
        (task active)
        (create dump read dump yaml (task ready) record { files = [] }).1).1
tasks_stay_well_example = tasks_stay_well dump read dump yaml activated starts_well
