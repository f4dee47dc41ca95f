-- ===== src/Impact/Evaluation/Keys.antt =====
-- The observations in the order of their keys (src/researchctl/services/dependency_impact.py).
use research_agent_ops.Base.{
  any-sort_by, any-insert_by, String, ◌≡◌, refl, sym, ◌∙◌, true, false, ◌&&◌, List, [], ◌∷◌, ◌==◌,
  string_eq, any, All, select, map, insert_by, sort_by, IsPairwise, sort_by-IsPairwise, Bool-cases,
  inl, inr, arith, is_le_total, is_le_trans,
}
use research_agent_ops.Impact.Dependencies.{
  text_before, member, repeats, is_canonical, DependencyKind, resource, environment, kind_eq,
  ObservationState, Observation,
}
use research_agent_ops.Impact.Canonical.{same_text_comm, is_canonical_from_pairwise}
use research_agent_ops.Impact.Evaluation.{has_key, key_at, key_before, is_observed, values}
use research_agent_ops.Impact.Evaluation.Seen.{
  IsUnique, kind_eq-path, unobserved, observed, any-select, any-map,
}

-- ## The keys in order
key_at_total :
    (k l : DependencyKind) (x y : String) → key_at k x l y ≡ false → key_at l y k x ≡ true
key_at_total resource resource x y h = is_le_total x y h
key_at_total environment environment x y h = is_le_total x y h
key_at_total resource environment x y h = refl
key_at_total environment resource x y h = cc

key_at_trans :
    (k l m : DependencyKind) (x y z : String)
    → key_at k x l y ≡ true
    → key_at l y m z ≡ true
    → key_at k x m z ≡ true
key_at_trans resource resource resource x y z h i = is_le_trans x y z h i
key_at_trans environment environment environment x y z h i = is_le_trans x y z h i
key_at_trans environment l resource x y z h i = refl
key_at_trans resource environment m x y z h i = cc
key_at_trans environment resource environment x y z h i = cc
key_at_trans resource resource environment x y z h i = cc

sorted_keys : (seen : List Observation) → IsPairwise key_before (sort_by key_before seen)
sorted_keys =
    sort_by-IsPairwise key_before (λ a b. key_at_total a.kind b.kind a.dependency b.dependency)
      (λ a b c. key_at_trans a.kind b.kind c.kind a.dependency b.dependency c.dependency)

kind_eq_comm : (k l : DependencyKind) → kind_eq k l ≡ kind_eq l k
kind_eq_comm resource resource = refl
kind_eq_comm resource environment = refl
kind_eq_comm environment resource = refl
kind_eq_comm environment environment = refl

pub has_key_comm :
    (a b : Observation) → has_key a.kind a.dependency b ≡ has_key b.kind b.dependency a
has_key_comm a b = λ i. kind_eq_comm b.kind a.kind i && same_text_comm b.dependency a.dependency i

insert_by-IsUnique :
    (o : Observation) (seen : List Observation)
    → any (has_key o.kind o.dependency) seen ≡ false
    → IsUnique seen
    → IsUnique (insert_by key_before o seen)
unfolding insert_by
insert_by-IsUnique o [] new u = (refl, tt)
insert_by-IsUnique o (p ∷ seen) new u = elim (Bool-cases (key_before o p)) [
  | inl e ↦ rw e (new, u)
  | inr e ↦ rw e (
    any-insert_by (has_key p.kind p.dependency) key_before o seen
        ∙ ground (arith, has_key_comm o p, u.0),
    insert_by-IsUnique o seen (ground arith) u.1,
  )
]

sort_by-IsUnique : (seen : List Observation) → IsUnique seen → IsUnique (sort_by key_before seen)
unfolding sort_by
sort_by-IsUnique [] u = tt
sort_by-IsUnique (o ∷ seen) u =
    insert_by-IsUnique o (sort_by key_before seen)
      (any-sort_by (has_key o.kind o.dependency) key_before seen ∙ u.0) (sort_by-IsUnique seen u.1)

kind_eq_self : (k : DependencyKind) → kind_eq k k ≡ true
kind_eq_self resource = refl
kind_eq_self environment = refl

-- ## The dependencies of one kind, in one state
module _ (kind : DependencyKind) (state : ObservationState) where
  names : List Observation → List String
  names seen = map (λ (o : Observation). o.dependency) (select (is_observed kind state) seen)

  ordered_name :
      (a b : Observation)
      → kind_eq a.kind kind ≡ true
      → kind_eq b.kind kind ≡ true
      → key_before a b ≡ true
      → text_before a.dependency b.dependency ≡ true
  ordered_name a b k l h =
      let same : a.kind ≡ b.kind = kind_eq-path a.kind kind k ∙ sym (kind_eq-path b.kind kind l) in
      let yes : kind_eq a.kind b.kind ≡ true = rw same (kind_eq_self b.kind) in ground arith

  ordered_names :
      (o : Observation) (seen : List Observation)
      → kind_eq o.kind kind ≡ true
      → All (λ p. key_before o p ≡ true) seen
      → All (λ y. text_before o.dependency y ≡ true) (names seen)
  unfolding names
  ordered_names o [] k h = tt
  ordered_names o (p ∷ seen) k h = elim (Bool-cases (is_observed kind state p)) [
    | inl e ↦ rw e (ordered_name o p k (ground arith) h.0, ordered_names o seen k h.1)
    | inr e ↦ rw e (ordered_names o seen k h.1)
  ]

  names-IsPairwise :
      (seen : List Observation) → IsPairwise key_before seen → IsPairwise text_before (names seen)
  unfolding names
  names-IsPairwise [] h = tt
  names-IsPairwise (o ∷ seen) h = elim (Bool-cases (is_observed kind state o)) [
    | inl e ↦ rw e (ordered_names o seen (ground arith) h.0, names-IsPairwise seen h.1)
    | inr e ↦ rw e (names-IsPairwise seen h.1)
  ]

  member-names :
      (x : String) (seen : List Observation) → member x (names seen) ≡ observed kind state x seen
  unfolding names
  member-names x seen =
      any-map (λ y. y == x) (λ (o : Observation). o.dependency)
        (select (is_observed kind state) seen)
      ∙ any-select (λ (o : Observation). o.dependency == x) (is_observed kind state) seen

  repeats-names : (seen : List Observation) → IsUnique seen → repeats (names seen) ≡ false
  unfolding names
  repeats-names [] u = refl
  repeats-names (o ∷ seen) u = elim (Bool-cases (is_observed kind state o)) [
    | inl e ↦
        let same : o.kind ≡ kind = kind_eq-path o.kind kind (ground arith) in
        let alone : any (has_key kind o.dependency) seen ≡ false = rw (← same) u.0 in
        rw (e, member-names o.dependency seen, unobserved kind state o.dependency seen alone)
          (repeats-names seen u.1)
    | inr e ↦ rw e (repeats-names seen u.1)
  ]

pub values-canonical :
    (kind : DependencyKind) (state : ObservationState) (seen : List Observation)
    → IsUnique seen
    → is_canonical (values kind state seen) ≡ true
unfolding values names
values-canonical kind state seen u =
    is_canonical_from_pairwise (names kind state (sort_by key_before seen))
      (names-IsPairwise kind state (sort_by key_before seen) (sorted_keys seen))
      (repeats-names kind state (sort_by key_before seen) (sort_by-IsUnique seen u))
