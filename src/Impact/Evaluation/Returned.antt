-- ===== src/Impact/Evaluation/Returned.antt =====
-- When the declared-dependency evaluator returns (src/researchctl/services/dependency_impact.py).
use research_agent_ops.Base.{
  String, ◌≡◌, refl, sym, ◌∙◌, Bool, true, false, ◌&&◌, not, List, [], ◌∷◌, ◌==◌, string_eq, any,
  all, find, map, sort_by, arith, ◌↔◌,
}
use research_agent_ops.Errors.{ok, and_then-ok}
use research_agent_ops.Impact.Dependencies.{
  DependencySet, require_canonical_dependencies, text_before, member, repeats, is_canonical,
  DependencyKind, resource, environment, changed, Observation, ChangeReceipt,
}
use research_agent_ops.Impact.Evaluation.{
  Evaluation, post_init, distinct, path_result, evaluate_paths, has_key, declared_of, observe,
  observe_all, all_observations, is_unresolved, unresolved, paths_only, declared_result, evaluate,
}
use research_agent_ops.Impact.Canonical.{
  sort_by-canonical, select-canonical, is_canonical-IsPairwise, repeats-sort_by,
}
use research_agent_ops.Impact.Evaluation.Seen.{
  IsUnique, observe-ok, observe_all-keeps, any-distinct,
}
use research_agent_ops.Impact.Evaluation.Keys.{has_key_comm, values-canonical}

-- ## The loop over the observations
module _ (d : DependencySet) where
  abbrev pub is_declared : Observation → Bool
  is_declared o = member o.dependency (declared_of o.kind d)

  -- No observation has the key of one seen before.
  abbrev are_new : List Observation → List Observation → Bool
  are_new seen rest = all (λ o. not (any (has_key o.kind o.dependency) seen)) rest

  are_new-cons :
      (o : Observation) (seen rest : List Observation)
      → are_new (o ∷ seen) rest
        ≡ (not (any (has_key o.kind o.dependency) rest) && are_new seen rest)
  are_new-cons o seen [] = refl
  are_new-cons o seen (p ∷ rest) = ground (arith, are_new-cons o seen rest, has_key_comm o p)

  observe_all_returns :
      (seen rest : List Observation)
      → all is_declared rest ≡ true
      → IsUnique rest
      → are_new seen rest ≡ true
      → (out : List Observation) × (observe_all d seen rest ≡ ok out)
  unfolding observe_all
  observe_all_returns seen [] h u n = (seen, refl)
  observe_all_returns seen (o ∷ rest) h u n =
      let declared : is_declared o ≡ true = ground arith in
      let new : any (has_key o.kind o.dependency) seen ≡ false = ground arith in
      rw (declared, new)
        (observe_all_returns (o ∷ seen) rest (ground arith) u.1
          (are_new-cons o seen rest ∙ ground (arith, u.0)))

  observe_all_accepts :
      (seen rest out : List Observation)
      → observe_all d seen rest ≡ ok out
      → (all is_declared rest ≡ true) × IsUnique rest × (are_new seen rest ≡ true)
  unfolding observe_all
  observe_all_accepts seen [] out h = (refl, tt, refl)
  observe_all_accepts seen (o ∷ rest) out h =
      let (later, e, k) = and_then-ok (observe d seen o) (λ l. observe_all d l rest) h in
      let (declared, new, same) = observe-ok d seen o later e in
      let (all_declared, apart, news) = observe_all_accepts (o ∷ seen) rest out (rw same k) in
      let split = are_new-cons o seen rest in (ground arith, (ground arith, apart), ground arith)

  are_new_nil : (rest : List Observation) → are_new [] rest ≡ true
  are_new_nil [] = refl
  are_new_nil (o ∷ rest) = are_new_nil rest

-- ## The checks of an evaluation
repeats-distinct : (xs : List String) → repeats (distinct xs) ≡ false
unfolding distinct
repeats-distinct [] = refl
repeats-distinct (x ∷ xs) = ground (arith, repeats-distinct xs, any-distinct (λ y. y == x) xs)

post_init-returns :
    (e : Evaluation) {f : Evaluation}
    → post_init e ≡ ok f
    → (is_canonical e.changed_paths ≡ true)
      × (is_canonical e.matched_paths ≡ true)
      × (is_canonical e.receipt_digests ≡ true)
      × (e ≡ f)
unfolding post_init
post_init-returns e h = ground arith

-- The dependencies that `require_canonical_dependencies` lets through.
abbrev pub IsCanonicalSet : DependencySet → Type 0
IsCanonicalSet d = require_canonical_dependencies d ≡ ok d

record HasCanonicalLists (d : DependencySet) : Type 0 where
  pub paths : is_canonical d.paths ≡ true
  pub resources : is_canonical d.resources ≡ true
  pub environments : is_canonical d.environments ≡ true
  pub alone : require_canonical_dependencies (paths_only d) ≡ ok (paths_only d)

canonical_lists : (d : DependencySet) → IsCanonicalSet d → HasCanonicalLists d
unfolding require_canonical_dependencies is_canonical
canonical_lists d h = record {
  paths = ground arith;
  resources = ground arith;
  environments = ground arith;
  alone = ground arith;
}

evaluate_paths_returns :
    (d : DependencySet) (changed_paths : List String)
    → is_canonical d.paths ≡ true
    → evaluate_paths (paths_only d) changed_paths [] ≡ ok (path_result (paths_only d) changed_paths)
unfolding evaluate_paths post_init is_canonical
evaluate_paths_returns d changed_paths h =
    rw
      (
        sort_by-canonical (distinct changed_paths) (repeats-distinct changed_paths),
        select-canonical _ d.paths h,
      )
      refl

-- What the receipts must be for `evaluate` to return.
pub record AreAccepted (d : DependencySet) (receipts : List ChangeReceipt) : Type 0 where
  pub declared : all (is_declared d) (all_observations receipts) ≡ true
  pub apart : IsUnique (all_observations receipts)
  pub digests : repeats (map (λ (r : ChangeReceipt). r.receipt_digest) receipts) ≡ false

unresolved-canonical :
    (kind : DependencyKind) (declared : List String) (seen : List Observation)
    → is_canonical declared ≡ true
    → is_canonical (unresolved kind declared seen) ≡ true
unfolding unresolved
unresolved-canonical kind declared seen =
    select-canonical (λ x. is_unresolved (find (has_key kind x) seen)) declared

module _ (d : DependencySet) (changed_paths : List String) (receipts : List ChangeReceipt)
    (canonical : IsCanonicalSet d) where
  abbrev evaluated : List Observation → Evaluation
  evaluated seen = declared_result d (path_result (paths_only d) changed_paths) seen receipts

  evaluated_passes :
      (seen : List Observation)
      → IsUnique seen
      → repeats (map (λ (r : ChangeReceipt). r.receipt_digest) receipts) ≡ false
      → post_init (evaluated seen) ≡ ok (evaluated seen)
  unfolding post_init
  evaluated_passes seen u k =
      let lists = canonical_lists d canonical in
      rw
        (
          sort_by-canonical (distinct changed_paths) (repeats-distinct changed_paths),
          select-canonical _ d.paths lists.paths,
          values-canonical resource changed seen u,
          values-canonical environment changed seen u,
          unresolved-canonical resource d.resources seen lists.resources,
          unresolved-canonical environment d.environments seen lists.environments,
          sort_by-canonical (map (λ (r : ChangeReceipt). r.receipt_digest) receipts) k,
        )
        refl

  evaluate_returns :
      AreAccepted d receipts → (e : Evaluation) × (evaluate d changed_paths receipts ≡ ok e)
  unfolding evaluate
  evaluate_returns h =
      let lists = canonical_lists d canonical in
      let (seen, e) =
        observe_all_returns d [] (all_observations receipts) h.declared h.apart
          (are_new_nil d (all_observations receipts)) in
      let u : IsUnique seen =
        (observe_all-keeps d (λ o. true) [] (all_observations receipts) seen e tt).0 in
      (
        evaluated seen,
        rw (lists.alone, evaluate_paths_returns d changed_paths lists.paths, e)
            (evaluated_passes seen u h.digests),
      )

  evaluate_accepts :
      (e : Evaluation) → evaluate d changed_paths receipts ≡ ok e → AreAccepted d receipts
  unfolding evaluate
  evaluate_accepts e h =
      let (only_paths, e1, h1) = and_then-ok (require_canonical_dependencies (paths_only d)) _ h in
      let (path_evaluation, e2, h2) =
        and_then-ok (evaluate_paths only_paths changed_paths []) _ h1 in
      let (seen, e3, h3) = and_then-ok (observe_all d [] (all_observations receipts)) _ h2 in
      let (declared, apart, new) = observe_all_accepts d [] (all_observations receipts) seen e3 in
      let (paths, matched, digests, same) =
        post_init-returns (declared_result d path_evaluation seen receipts) h3 in
      record {
        declared = declared;
        apart = apart;
        digests =
            sym (repeats-sort_by (map (λ (r : ChangeReceipt). r.receipt_digest) receipts))
            ∙ (is_canonical-IsPairwise
                (sort_by text_before (map (λ (r : ChangeReceipt). r.receipt_digest) receipts))
                digests).1;
      }

  -- With dependencies that the check of their canonical form lets through, `evaluate` returns an
  -- evaluation just where every observation of the receipts is of a declared dependency, no two
  -- observations have the same kind and dependency, and no two receipts have the same digest.
  pub evaluate_returns_iff :
      AreAccepted d receipts ↔ ((e : Evaluation) × (evaluate d changed_paths receipts ≡ ok e))
  evaluate_returns_iff = (evaluate_returns, λ (e, h). evaluate_accepts e h)
