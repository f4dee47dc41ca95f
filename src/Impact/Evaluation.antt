-- ===== src/Impact/Evaluation.antt =====
-- The evaluators of a change of paths and of provider receipts (`PathDependencyImpactEvaluator`,
-- `DeclaredDependencyImpactEvaluator` of src/researchctl/services/dependency_impact.py).
pub mod Seen
pub mod Classified
pub mod Keys
pub mod Returned
mod Samples
use research_agent_ops.Base.{
  ℕ, ltb, String, Bool, true, false, ◌&&◌, ◌||◌, not, Option, none, some, List, [], ◌∷◌, ◌++◌, ◌==◌,
  string_eq, if◌then◌else◌, any, all, find, select, map, codes, sort_by,
}
use research_agent_ops.Errors.{and_then as ◌>>=◌, Result, ok, err, value_error}
use research_agent_ops.Impact.Paths.{path_dependency_matches}
use research_agent_ops.Impact.Dependencies.{
  DependencySet, require_canonical_dependencies, text_before, member, is_canonical, DependencyKind,
  resource, environment, kind_eq, ObservationState, changed, unknown, state_eq, Observation,
  ChangeReceipt,
}

abbrev path_evaluator : String
path_evaluator = "researchctl.path-dependency.v1"

abbrev declared_evaluator : String
declared_evaluator = "researchctl.declared-dependency.v2"

pub record Evaluation : Type 0 where
  pub evaluator_id : String
  pub changed_paths : List String
  pub matched_paths : List String
  pub matched_resources : List String
  pub matched_environments : List String
  pub unresolved_resources : List String
  pub unresolved_environments : List String
  pub receipt_digests : List String

abbrev is_ascii_id : String → Bool
is_ascii_id id = not (id == "") && all (λ c. ltb c 128) (codes id)

-- `__post_init__`
unfoldable pub post_init : Evaluation → Result Evaluation
unfolding is_canonical
post_init e =
    if is_ascii_id e.evaluator_id
      && is_canonical e.changed_paths
      && is_canonical e.matched_paths
      && is_canonical e.matched_resources
      && is_canonical e.matched_environments
      && is_canonical e.unresolved_resources
      && is_canonical e.unresolved_environments
      && is_canonical e.receipt_digests
    then ok e
    else err value_error

-- `set(xs)`
unfoldable pub distinct : List String → List String
distinct [] = []
distinct (x ∷ xs) = let rest = distinct xs in if member x xs then rest else x ∷ rest

abbrev is_empty : List ChangeReceipt → Bool
is_empty [] = true
is_empty (r ∷ receipts) = false

-- What the path evaluator returns.
abbrev pub path_result : DependencySet → List String → Evaluation
path_result dependencies changed_paths =
    let canonical_paths = sort_by text_before (distinct changed_paths) in
    record {
      evaluator_id = path_evaluator;
      changed_paths = canonical_paths;
      matched_paths =
          select (λ d. any (λ p. path_dependency_matches (codes d) (codes p)) canonical_paths)
            dependencies.paths;
      matched_resources = [];
      matched_environments = [];
      unresolved_resources = dependencies.resources;
      unresolved_environments = dependencies.environments;
      receipt_digests = [];
    }

-- `evaluate` of the path evaluator
unfoldable pub evaluate_paths : DependencySet → List String → List ChangeReceipt → Result Evaluation
unfolding post_init distinct sort_by path_dependency_matches
evaluate_paths dependencies changed_paths receipts =
    if not (is_empty receipts)
    then err value_error
    else post_init (path_result dependencies changed_paths)

abbrev pub has_key : DependencyKind → String → Observation → Bool
has_key kind dependency o = kind_eq o.kind kind && o.dependency == dependency

abbrev pub declared_of : DependencyKind → DependencySet → List String
declared_of resource d = d.resources
declared_of environment d = d.environments

-- One round of the loop over the observations: the dict keeps them under their kind and dependency.
abbrev pub observe : DependencySet → List Observation → Observation → Result (List Observation)
observe d seen o =
    if not (member o.dependency (declared_of o.kind d))
    then err value_error
    else if any (has_key o.kind o.dependency) seen
    then err value_error
    else ok (o ∷ seen)

unfoldable pub observe_all :
    DependencySet → List Observation → List Observation → Result (List Observation)
observe_all d seen [] = ok seen
observe_all d seen (o ∷ observations) = do
  later ← observe d seen o
  observe_all d later observations

abbrev pub all_observations : List ChangeReceipt → List Observation
all_observations [] = []
all_observations (r ∷ receipts) = r.observations ++ all_observations receipts

-- The order of the keys; "environment" is ahead of "resource".
abbrev pub key_at : DependencyKind → String → DependencyKind → String → Bool
key_at k x l y = if kind_eq k l then text_before x y else kind_eq k environment

abbrev pub key_before : Observation → Observation → Bool
key_before a b = key_at a.kind a.dependency b.kind b.dependency

abbrev pub is_observed : DependencyKind → ObservationState → Observation → Bool
is_observed kind state o = kind_eq o.kind kind && state_eq o.state state

-- `values`
unfoldable pub values : DependencyKind → ObservationState → List Observation → List String
unfolding sort_by
values kind state seen =
    map (λ (o : Observation). o.dependency)
      (select (is_observed kind state) (sort_by key_before seen))

-- `observations.get(...) in {None, "unknown"}`
abbrev pub is_unresolved : Option Observation → Bool
is_unresolved none = true
is_unresolved (some o) = state_eq o.state unknown

unfoldable pub unresolved : DependencyKind → List String → List Observation → List String
unresolved kind declared seen = select (λ d. is_unresolved (find (has_key kind d) seen)) declared

-- `DependencySet(paths=dependencies.paths)`
abbrev pub paths_only : DependencySet → DependencySet
paths_only d = record { paths = d.paths; resources = []; environments = [] }

-- What the declared-dependency evaluator returns.
abbrev pub declared_result :
    DependencySet → Evaluation → List Observation → List ChangeReceipt → Evaluation
declared_result d path_evaluation seen receipts = record {
  evaluator_id = declared_evaluator;
  changed_paths = path_evaluation.changed_paths;
  matched_paths = path_evaluation.matched_paths;
  matched_resources = values resource changed seen;
  matched_environments = values environment changed seen;
  unresolved_resources = unresolved resource d.resources seen;
  unresolved_environments = unresolved environment d.environments seen;
  receipt_digests = sort_by text_before (map (λ (r : ChangeReceipt). r.receipt_digest) receipts);
}

-- `evaluate` of the declared-dependency evaluator
unfoldable pub evaluate : DependencySet → List String → List ChangeReceipt → Result Evaluation
unfolding evaluate_paths require_canonical_dependencies observe_all values unresolved post_init
    sort_by
evaluate d changed_paths receipts = do
  only_paths ← require_canonical_dependencies (paths_only d)
  path_evaluation ← evaluate_paths only_paths changed_paths []
  seen ← observe_all d [] (all_observations receipts)
  post_init (declared_result d path_evaluation seen receipts)
