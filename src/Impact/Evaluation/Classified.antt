-- ===== src/Impact/Evaluation/Classified.antt =====
-- What an evaluation says of the declared dependencies
-- (src/researchctl/services/dependency_impact.py).
use research_agent_ops.Base.{
  any-sort_by, String, ◌≡◌, refl, sym, ap, ◌∙◌, subst, Bool, true, ◌&&◌, ◌||◌, not, List, [], ◌∷◌,
  ◌==◌, string_eq, any, all, codes, sort_by, arith,
}
use research_agent_ops.Errors.{ok, and_then-ok}
use research_agent_ops.Impact.Paths.{path_dependency_matches}
use research_agent_ops.Impact.Dependencies.{
  DependencySet, require_canonical_dependencies, text_before, member, is_canonical, DependencyKind,
  resource, environment, changed, unchanged, ObservationState, Observation, ChangeReceipt,
}
use research_agent_ops.Impact.Evaluation.{
  Evaluation, post_init, distinct, path_result, declared_result, evaluate_paths, declared_of,
  paths_only, observe_all, all_observations, values, unresolved, evaluate, is_observed,
}
use research_agent_ops.Impact.Canonical.{member-select}
use research_agent_ops.Impact.Evaluation.Seen.{
  any-distinct, member-values, member-unresolved, observed, IsUnique, observe_all-keeps,
}

abbrev pub matched_of : DependencyKind → Evaluation → List String
matched_of resource e = e.matched_resources
matched_of environment e = e.matched_environments

abbrev pub unresolved_of : DependencyKind → Evaluation → List String
unresolved_of resource e = e.unresolved_resources
unresolved_of environment e = e.unresolved_environments

abbrev pub lists_of : Evaluation → List (List String)
lists_of e =
    e.changed_paths ∷ e.matched_paths ∷ e.matched_resources ∷ e.matched_environments
    ∷ e.unresolved_resources ∷ e.unresolved_environments ∷ e.receipt_digests ∷ []

-- Whether some changed path is covered by a declared one.
abbrev pub touched : List String → String → Bool
touched changed_paths d = any (λ p. path_dependency_matches (codes d) (codes p)) changed_paths

-- The evaluation has the changed paths; of the declared paths those that cover a changed one; of each
-- kind the dependencies that a receipt has observed as changed, and those declared ones that no receipt
-- has observed as changed or as unchanged; and each of its lists is sorted, without repetition.
pub record Classifies (d : DependencySet) (changed_paths : List String)
    (receipts : List ChangeReceipt) (e : Evaluation) : Type 0 where
  pub changes : (p : String) → member p e.changed_paths ≡ member p changed_paths
  pub paths :
      (p : String) → member p e.matched_paths ≡ (member p d.paths && touched changed_paths p)
  pub matched :
      (kind : DependencyKind) (x : String)
      → member x (matched_of kind e) ≡ observed kind changed x (all_observations receipts)
  pub open_ :
      (kind : DependencyKind) (x : String)
      → member x (unresolved_of kind e) ≡ (
          member x (declared_of kind d)
          && not (
              observed kind changed x (all_observations receipts)
              || observed kind unchanged x (all_observations receipts)))
  pub canonical : all is_canonical (lists_of e) ≡ true

post_init-ok :
    (e : Evaluation) {f : Evaluation}
    → post_init e ≡ ok f
    → (e ≡ f) × (all is_canonical (lists_of e) ≡ true)
unfolding post_init
post_init-ok e h = ground arith

record PathsEvaluated (paths changed_paths : List String) (e : Evaluation) : Type 0 where
  pub changes : (p : String) → member p e.changed_paths ≡ member p changed_paths
  pub matches :
      (p : String) → member p e.matched_paths ≡ (member p paths && touched changed_paths p)

evaluate_paths-ok :
    (d : DependencySet) (changed_paths : List String) {e : Evaluation}
    → evaluate_paths d changed_paths [] ≡ ok e
    → PathsEvaluated d.paths changed_paths e
unfolding evaluate_paths
evaluate_paths-ok d changed_paths {e} h =
    let (same, canonical) = post_init-ok (path_result d changed_paths) h in
    let covered = λ (q : String).
      any (λ p. path_dependency_matches (codes q) (codes p))
        (sort_by text_before (distinct changed_paths)) in
    subst (PathsEvaluated d.paths changed_paths) same (record {
      changes = λ p.
          any-sort_by (λ y. y == p) text_before (distinct changed_paths)
          ∙ any-distinct (λ y. y == p) changed_paths;
      matches = λ p.
          member-select covered p d.paths
          ∙ ap (λ b. member p d.paths && b)
              (any-sort_by (λ q. path_dependency_matches (codes p) (codes q)) text_before
                  (distinct changed_paths)
                ∙ any-distinct (λ q. path_dependency_matches (codes p) (codes q)) changed_paths);
    })

require-ok :
    (d : DependencySet) {e : DependencySet} → require_canonical_dependencies d ≡ ok e → d ≡ e
unfolding require_canonical_dependencies
require-ok d h = ground arith

module _ (d : DependencySet) (changed_paths : List String) (receipts : List ChangeReceipt)
    (seen : List Observation) (done : observe_all d [] (all_observations receipts) ≡ ok seen) where
  -- The dict says what the receipts say.
  seen_is :
      (kind : DependencyKind) (state : ObservationState) (x : String)
      → observed kind state x seen ≡ observed kind state x (all_observations receipts)
  seen_is kind state x =
      (observe_all-keeps d (λ o. is_observed kind state o && o.dependency == x) []
        (all_observations receipts) seen done tt).1

  seen-IsUnique : IsUnique seen
  seen-IsUnique = (observe_all-keeps d (λ o. true) [] (all_observations receipts) seen done tt).0

  member-matched :
      (kind : DependencyKind) (x : String)
      → member x (values kind changed seen) ≡ observed kind changed x (all_observations receipts)
  member-matched kind x = member-values kind changed x seen ∙ seen_is kind changed x

  member-open :
      (kind : DependencyKind) (x : String)
      → member x (unresolved kind (declared_of kind d) seen) ≡ (
          member x (declared_of kind d)
          && not (
              observed kind changed x (all_observations receipts)
              || observed kind unchanged x (all_observations receipts)))
  member-open kind x =
      rw (← seen_is kind changed x, ← seen_is kind unchanged x)
        (member-unresolved kind x (declared_of kind d) seen seen-IsUnique)

  matched_of-result :
      (e : Evaluation) (kind : DependencyKind)
      → matched_of kind (declared_result d e seen receipts) ≡ values kind changed seen
  matched_of-result e resource = refl
  matched_of-result e environment = refl

  unresolved_of-result :
      (e : Evaluation) (kind : DependencyKind)
      → unresolved_of kind (declared_result d e seen receipts)
        ≡ unresolved kind (declared_of kind d) seen
  unresolved_of-result e resource = refl
  unresolved_of-result e environment = refl

  declared_result-Classifies :
      (e : Evaluation)
      → PathsEvaluated d.paths changed_paths e
      → all is_canonical (lists_of (declared_result d e seen receipts)) ≡ true
      → Classifies d changed_paths receipts (declared_result d e seen receipts)
  declared_result-Classifies e p canonical = record {
    changes = p.changes;
    paths = p.matches;
    matched = λ kind x. rw (matched_of-result e kind) (member-matched kind x);
    open_ = λ kind x. rw (unresolved_of-result e kind) (member-open kind x);
    canonical = canonical;
  }

-- If `evaluate` returns an evaluation, then it has the changed paths; of the declared paths those that
-- cover a changed one; of each kind the dependencies that a receipt has observed as changed, and those
-- declared ones that no receipt has observed as changed or unchanged; and each of its lists is sorted,
-- without repetition.
pub evaluate-Classifies :
    (d : DependencySet) (changed_paths : List String) (receipts : List ChangeReceipt)
    (e : Evaluation)
    → evaluate d changed_paths receipts ≡ ok e
    → Classifies d changed_paths receipts e
unfolding evaluate
evaluate-Classifies d changed_paths receipts e h =
    let (only_paths, e1, h1) = and_then-ok (require_canonical_dependencies (paths_only d)) _ h in
    let (path_evaluation, e2, h2) = and_then-ok (evaluate_paths only_paths changed_paths []) _ h1 in
    let (seen, e3, h3) = and_then-ok (observe_all d [] (all_observations receipts)) _ h2 in
    let (same, canonical) = post_init-ok (declared_result d path_evaluation seen receipts) h3 in
    let paths =
      subst (λ (o : DependencySet). PathsEvaluated o.paths changed_paths path_evaluation)
        (sym (require-ok (paths_only d) e1)) (evaluate_paths-ok only_paths changed_paths e2) in
    subst (Classifies d changed_paths receipts) same
      (declared_result-Classifies d changed_paths receipts seen e3 path_evaluation paths canonical)
