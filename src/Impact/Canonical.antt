-- ===== src/Impact/Canonical.antt =====
-- Lists of texts that are sorted, without repetition (`values == tuple(sorted(values))` and
-- `len(values) == len(set(values))` of src/researchctl/services/dependency_impact.py).
use research_agent_ops.Base.{
  any-sort_by, any-insert_by, String, ◌≡◌, refl, sym, ◌∙◌, subst, Bool, true, false, ◌&&◌, ◌||◌,
  List, [], ◌∷◌, ◌==◌, string_eq, select, insert_by, sort_by, IsPairwise, sort_by-IsPairwise,
  sort_by-IsPairwise_self, select-IsPairwise, is_le_total, is_le_trans, String-cases, inl, inr,
  arith, eq_iff,
}
use research_agent_ops.Impact.Dependencies.{text_before, member, repeats, same_texts, is_canonical}

pub member-select :
    (q : String → Bool) (x : String) (xs : List String)
    → member x (select q xs) ≡ (member x xs && q x)
member-select q x [] = refl
member-select q x (y ∷ ys) = elim (String-cases y x) [
  | inl same ↦ rw same (ground (arith, member-select q x ys))
  | inr other ↦ ground (arith, member-select q x ys)
]

same_texts_path : (xs ys : List String) → same_texts xs ys ≡ true → xs ≡ ys
same_texts_path [] [] h = refl
same_texts_path [] (y ∷ ys) h = cc
same_texts_path (x ∷ xs) [] h = cc
same_texts_path (x ∷ xs) (y ∷ ys) h =
    let head : x ≡ y = (eq_iff x y).0 (ground arith) in
    let tail : xs ≡ ys = same_texts_path xs ys (ground arith) in λ i. head i ∷ tail i

same_texts_self : (xs : List String) → same_texts xs xs ≡ true
same_texts_self [] = refl
same_texts_self (x ∷ xs) = ground (arith, (eq_iff x x).1 refl, same_texts_self xs)

pub same_text_comm : (x y : String) → (x == y) ≡ (y == x)
same_text_comm x y = ground (arith, eq_iff x y, eq_iff y x)

-- ## Repetition
repeats-insert_by :
    (x : String) (ys : List String)
    → repeats (insert_by text_before x ys) ≡ (member x ys || repeats ys)
unfolding insert_by
repeats-insert_by x [] = refl
repeats-insert_by x (y ∷ ys) = ground (
  arith,
  same_text_comm x y,
  repeats-insert_by x ys,
  any-insert_by (λ (z : String). z == y) text_before x ys,
)

pub repeats-sort_by : (xs : List String) → repeats (sort_by text_before xs) ≡ repeats xs
unfolding sort_by
repeats-sort_by [] = refl
repeats-sort_by (x ∷ xs) =
    repeats-insert_by x (sort_by text_before xs)
    ∙ (λ i. any-sort_by (λ (y : String). y == x) text_before xs i || repeats-sort_by xs i)

pub repeats-select :
    (q : String → Bool) (xs : List String) → repeats xs ≡ false → repeats (select q xs) ≡ false
repeats-select q [] h = refl
repeats-select q (x ∷ xs) h = ground (arith, repeats-select q xs, member-select q x xs)

-- ## Order
pub text_before_total : (a b : String) → text_before a b ≡ false → text_before b a ≡ true
text_before_total = is_le_total

pub is_canonical-IsPairwise :
    (xs : List String) → is_canonical xs ≡ true → IsPairwise text_before xs × (repeats xs ≡ false)
unfolding is_canonical
is_canonical-IsPairwise xs h =
    let sorted : xs ≡ sort_by text_before xs =
      same_texts_path xs (sort_by text_before xs) (ground arith) in
    (
      subst (IsPairwise text_before) (sym sorted)
          (sort_by-IsPairwise text_before is_le_total is_le_trans xs),
      ground arith,
    )

pub is_canonical_from_pairwise :
    (xs : List String) → IsPairwise text_before xs → repeats xs ≡ false → is_canonical xs ≡ true
unfolding is_canonical
is_canonical_from_pairwise xs h k =
    rw (sort_by-IsPairwise_self text_before xs h, same_texts_self xs, k) refl

pub select-canonical :
    (q : String → Bool) (xs : List String)
    → is_canonical xs ≡ true
    → is_canonical (select q xs) ≡ true
select-canonical q xs h =
    let (p, k) = is_canonical-IsPairwise xs h in
    is_canonical_from_pairwise (select q xs) (select-IsPairwise text_before q xs p)
      (repeats-select q xs k)

-- What `sorted` gives is canonical just where the list has no repetition.
pub sort_by-canonical :
    (xs : List String) → repeats xs ≡ false → is_canonical (sort_by text_before xs) ≡ true
sort_by-canonical xs k =
    is_canonical_from_pairwise (sort_by text_before xs)
      (sort_by-IsPairwise text_before is_le_total is_le_trans xs) (repeats-sort_by xs ∙ k)
