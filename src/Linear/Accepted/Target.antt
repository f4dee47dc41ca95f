-- ===== src/Linear/Accepted/Target.antt =====
-- The check of what Linear shows of a target (`_validate_remote_target` of
-- src/researchctl/services/linear_delivery.py).
use research_agent_ops.Base.{
  String, Bool, true, false, ◌&&◌, ◌||◌, not, Option, none, some, any, ◌==◌, string_eq, option_eq,
  if◌then◌else◌,
}
use research_agent_ops.Linear.Remote.{LinearTarget, LinearTargetObservation}

abbrev exact_identity : LinearTarget → LinearTargetObservation → Bool
exact_identity t o =
    o.workspace_id == t.workspace_id && o.team_id == t.team_id && o.issue_id == t.issue_id

abbrev exact_relationships : LinearTarget → LinearTargetObservation → Bool
exact_relationships t o =
    o.team_workspace_id == t.workspace_id
    && o.issue_workspace_id == t.workspace_id
    && o.issue_team_id == t.team_id

-- The branch on the project of the target.
abbrev project_identity : LinearTargetObservation → LinearTarget → Option String → Bool
project_identity o t none = true
project_identity o t (some p) = o.project_id == some p

abbrev project_relationships : LinearTargetObservation → LinearTarget → Option String → Bool
project_relationships o t none = true
project_relationships o t (some p) =
    o.project_workspace_id == some t.workspace_id
    && any (λ id. id == t.team_id) o.project_team_ids
    && any (λ id. id == p) o.issue_project_ids

abbrev project_archived : LinearTargetObservation → Option String → Bool
project_archived o none = false
project_archived o (some p) = o.project_archived

-- `_validate_remote_target`
unfoldable pub validate_remote_target :
    LinearTarget → Option LinearTargetObservation → Option String
validate_remote_target t none = some "linear_target_not_found"
validate_remote_target t (some o) =
    if not (exact_identity t o && project_identity o t t.project_id)
      || not (exact_relationships t o && project_relationships o t t.project_id)
    then some "linear_target_mismatch"
    else if o.workspace_archived
        || o.team_archived
        || o.issue_archived
        || project_archived o t.project_id
    then some "linear_target_archived"
    else none
