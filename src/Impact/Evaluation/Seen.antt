-- ===== src/Impact/Evaluation/Seen.antt =====
-- What lists and the dict of the observations hold (src/researchctl/services/dependency_impact.py).
use research_agent_ops.Base.{
  any-sort_by, String, ◌≡◌, refl, ap, ◌∙◌, Bool, true, false, ◌&&◌, ◌||◌, not, List, [], ◌∷◌, ◌==◌,
  string_eq, any, find, select, map, sort_by, Bool-cases, String-cases, inl, inr, arith, eq_iff,
}
use research_agent_ops.Errors.{ok, and_then-ok}
use research_agent_ops.Impact.Dependencies.{
  DependencySet, member, DependencyKind, resource, environment, kind_eq, ObservationState, changed,
  unchanged, unknown, state_eq, Observation,
}
use research_agent_ops.Impact.Canonical.{member-select}
use research_agent_ops.Impact.Evaluation.{
  distinct, has_key, declared_of, observe, observe_all, key_before, is_observed, values,
  is_unresolved, unresolved,
}

module _ {A : Type 0} (p : A → Bool) where
  pub any-select : (q : A → Bool) (xs : List A) → any p (select q xs) ≡ any (λ x. q x && p x) xs
  any-select q [] = refl
  any-select q (x ∷ xs) = ground (arith, any-select q xs)

  pub any-map : {B : Type 0} (f : B → A) (ys : List B) → any p (map f ys) ≡ any (λ y. p (f y)) ys
  any-map f [] = refl
  any-map f (y ∷ ys) = ground (arith, any-map f ys)

-- A member that passes a test.
any-member :
    (p : String → Bool) (x : String) (xs : List String)
    → member x xs ≡ true
    → p x ≡ true
    → any p xs ≡ true
any-member p x [] h k = cc
any-member p x (y ∷ ys) h k = elim (String-cases y x) [
  | inl same ↦ ground (arith, ap p same)
  | inr other ↦ ground (arith, any-member p x ys)
]

pub any-distinct : (p : String → Bool) (xs : List String) → any p (distinct xs) ≡ any p xs
unfolding distinct
any-distinct p [] = refl
any-distinct p (x ∷ xs) = ground (arith, any-distinct p xs, any-member p x xs)

-- ## The dict of the observations
-- No two observations have the same kind and dependency.
abbrev pub IsUnique : List Observation → Type 0
IsUnique [] = Unit
IsUnique (o ∷ seen) = (any (has_key o.kind o.dependency) seen ≡ false) × IsUnique seen

-- Whether a dependency has been observed in a state.
abbrev pub observed : DependencyKind → ObservationState → String → List Observation → Bool
observed kind state x seen = any (λ o. is_observed kind state o && o.dependency == x) seen

pub member-values :
    (kind : DependencyKind) (state : ObservationState) (x : String) (seen : List Observation)
    → member x (values kind state seen) ≡ observed kind state x seen
unfolding values
member-values kind state x seen =
    any-map (λ y. y == x) (λ (o : Observation). o.dependency)
      (select (is_observed kind state) (sort_by key_before seen))
    ∙ any-select (λ (o : Observation). o.dependency == x) (is_observed kind state)
        (sort_by key_before seen)
    ∙ any-sort_by (λ (o : Observation). is_observed kind state o && o.dependency == x) key_before
        seen

-- A dependency without an observation has been observed in no state.
pub unobserved :
    (kind : DependencyKind) (state : ObservationState) (x : String) (seen : List Observation)
    → any (has_key kind x) seen ≡ false
    → observed kind state x seen ≡ false
unobserved kind state x [] h = refl
unobserved kind state x (o ∷ seen) h = ground (arith, unobserved kind state x seen)

pub kind_eq-path : (a b : DependencyKind) → kind_eq a b ≡ true → a ≡ b
kind_eq-path resource resource h = refl
kind_eq-path environment environment h = refl
kind_eq-path resource environment h = cc
kind_eq-path environment resource h = cc

state_is_one :
    (state : ObservationState)
    → state_eq state unknown ≡ not (state_eq state changed || state_eq state unchanged)
state_is_one changed = refl
state_is_one unchanged = refl
state_is_one unknown = refl

-- A dependency is unresolved just where it has been observed neither as changed nor as unchanged.
pub is_unresolved-find :
    (kind : DependencyKind) (x : String) (seen : List Observation)
    → IsUnique seen
    → is_unresolved (find (has_key kind x) seen)
      ≡ not (observed kind changed x seen || observed kind unchanged x seen)
is_unresolved-find kind x [] u = refl
is_unresolved-find kind x (o ∷ seen) u = elim (Bool-cases (has_key kind x o)) [
  | inl e ↦
      let same_kind : o.kind ≡ kind = kind_eq-path o.kind kind (ground arith) in
      let same_name : o.dependency ≡ x = (eq_iff o.dependency x).0 (ground arith) in
      let alone : any (has_key kind x) seen ≡ false = rw (← same_kind, ← same_name) u.0 in
      ground (
        arith,
        state_is_one o.state,
        unobserved kind changed x seen,
        unobserved kind unchanged x seen,
      )
  | inr e ↦ ground (arith, is_unresolved-find kind x seen u.1)
]

pub member-unresolved :
    (kind : DependencyKind) (x : String) (declared : List String) (seen : List Observation)
    → IsUnique seen
    → member x (unresolved kind declared seen)
      ≡ (member x declared && not (observed kind changed x seen || observed kind unchanged x seen))
unfolding unresolved
member-unresolved kind x declared seen u =
    member-select (λ d. is_unresolved (find (has_key kind d) seen)) x declared
    ∙ ap (λ b. member x declared && b) (is_unresolved-find kind x seen u)

pub observe-ok :
    (d : DependencySet) (seen : List Observation) (o : Observation) (later : List Observation)
    → observe d seen o ≡ ok later
    → (member o.dependency (declared_of o.kind d) ≡ true)
      × (any (has_key o.kind o.dependency) seen ≡ false)
      × (o ∷ seen ≡ later)
observe-ok d seen o later h = ground arith

-- The loop keeps the observations apart, and loses none.
pub observe_all-keeps :
    (d : DependencySet) (p : Observation → Bool) (seen rest out : List Observation)
    → observe_all d seen rest ≡ ok out
    → IsUnique seen
    → IsUnique out × (any p out ≡ (any p seen || any p rest))
unfolding observe_all
observe_all-keeps d p seen [] out h u =
    let same : seen ≡ out = ground arith in rw (← same) (u, ground arith)
observe_all-keeps d p seen (o ∷ rest) out h u =
    let (later, e, k) = and_then-ok (observe d seen o) (λ l. observe_all d l rest) h in
    let (declared, new, same) = observe-ok d seen o later e in
    let (apart, all) = observe_all-keeps d p (o ∷ seen) rest out (rw same k) (new, u) in
    (apart, ground arith)
