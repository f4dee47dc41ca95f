-- ===== src/Base/Sort.antt =====
-- ORDER BY and LIMIT of the SQL statements, and Python's `sorted`: insertion sort by a test, and the
-- first rows of a list.
use Prim.Native.Nat.{ℕ, zero, suc}
use Prim.Native.String.{String, compare}
use mathlib.Core.Path.{◌≡◌, refl, ap}
use mathlib.Core.Bool.{Bool, true, false, not, ◌&&◌, ◌||◌}
use mathlib.Core.Logic.{inl, inr}
use mathlib.Core.List.{List, [], ◌∷◌, ◌++◌, Perm, perm_middle}
use mathlib.Core.List.Perm
use native.Mathlib.Omega.{arith}
use text.Mathlib.Text.{is_le}
use research_agent_ops.Base.Tests.{ltb, leb, if◌then◌else◌, Bool-cases}
use research_agent_ops.Base.Equality.{◌==◌, nat_eq}
use research_agent_ops.Base.Lists.{length, All, All-map, any}
use research_agent_ops.Base.Table.{select, select-All}
use research_agent_ops.Base.Texts.{is_le_total}

module _ {A : Type 0} (before : A → A → Bool) where
  unfoldable pub insert_by : A → List A → List A
  insert_by x [] = x ∷ []
  insert_by x (y ∷ ys) = let rest = insert_by x ys in if before x y then x ∷ y ∷ ys else y ∷ rest

  unfoldable pub sort_by : List A → List A
  unfolding insert_by
  sort_by [] = []
  sort_by (x ∷ xs) = insert_by x (sort_by xs)

  -- Each element stands before the next one, or ties with it.
  abbrev pub IsSorted : List A → Type 0
  IsSorted [] = Unit
  IsSorted (x ∷ []) = Unit
  IsSorted (x ∷ y ∷ ys) = (before x y ≡ true) × IsSorted (y ∷ ys)

  pub insert_by-perm : (x : A) (ys : List A) → Perm (insert_by x ys) (x ∷ ys)
  unfolding insert_by
  insert_by-perm x [] = Perm.refl (x ∷ [])
  insert_by-perm x (y ∷ ys) = elim (Bool-cases (before x y)) [
    | inl e ↦ rw e (Perm.refl (x ∷ y ∷ ys))
    | inr e ↦ rw e (Perm.trans (Perm.cons y (insert_by-perm x ys)) (Perm.swap x y ys))
  ]

  pub sort_by-perm : (xs : List A) → Perm (sort_by xs) xs
  unfolding sort_by
  sort_by-perm [] = Perm.refl []
  sort_by-perm (x ∷ xs) = Perm.trans (insert_by-perm x (sort_by xs)) (Perm.cons x (sort_by-perm xs))

  length-insert_by : (x : A) (ys : List A) → length (insert_by x ys) ≡ suc (length ys)
  unfolding insert_by
  length-insert_by x [] = refl
  length-insert_by x (y ∷ ys) = ground (arith, length-insert_by x ys)

  pub length-sort_by : (xs : List A) → length (sort_by xs) ≡ length xs
  unfolding sort_by
  length-sort_by [] = refl
  length-sort_by (x ∷ xs) = omega (arith, length-insert_by x (sort_by xs), length-sort_by xs)

  insert_by-All : (P : A → Type 0) (x : A) (ys : List A) → P x → All P ys → All P (insert_by x ys)
  unfolding insert_by
  insert_by-All P x [] p a = (p, tt)
  insert_by-All P x (y ∷ ys) p a = elim (Bool-cases (before x y)) [
    | inl e ↦ rw e (p, a)
    | inr e ↦ rw e (a.0, insert_by-All P x ys p a.1)
  ]

  pub sort_by-All : (P : A → Type 0) (xs : List A) → All P xs → All P (sort_by xs)
  unfolding sort_by
  sort_by-All P [] a = tt
  sort_by-All P (x ∷ xs) a = insert_by-All P x (sort_by xs) a.0 (sort_by-All P xs a.1)

  module _ (total : (a b : A) → before a b ≡ false → before b a ≡ true) where
    insert_by-IsSorted : (x : A) (ys : List A) → IsSorted ys → IsSorted (insert_by x ys)
    unfolding insert_by
    insert_by-IsSorted x [] h = tt
    insert_by-IsSorted x (a ∷ []) h = elim (Bool-cases (before x a)) [
      | inl e ↦ rw e (e, tt)
      | inr e ↦ rw e (total x a e, tt)
    ]
    insert_by-IsSorted x (a ∷ b ∷ ys) h = elim (Bool-cases (before x a)) [
      | inl e ↦ rw e (e, h)
      | inr e ↦ elim (Bool-cases (before x b)) [
        | inl e' ↦ rw (e, e') (total x a e, (e', h.1))
        | inr e' ↦
            let rest = insert_by-IsSorted x (b ∷ ys) h.1 in
            let below : IsSorted (b ∷ insert_by x ys) = rw e' at rest in rw (e, e') (h.0, below)
      ]
    ]

    pub sort_by-IsSorted : (xs : List A) → IsSorted (sort_by xs)
    unfolding sort_by
    sort_by-IsSorted [] = tt
    sort_by-IsSorted (x ∷ xs) = insert_by-IsSorted x (sort_by xs) (sort_by-IsSorted xs)

module _ {A : Type 0} (p : A → Bool) where
  pub any-insert_by :
      (before : A → A → Bool) (x : A) (ys : List A)
      → any p (insert_by before x ys) ≡ (p x || any p ys)
  unfolding insert_by
  any-insert_by before x [] = ground arith
  any-insert_by before x (y ∷ ys) = ground (arith, any-insert_by before x ys)

  pub any-sort_by : (before : A → A → Bool) (xs : List A) → any p (sort_by before xs) ≡ any p xs
  unfolding sort_by
  any-sort_by before [] = refl
  any-sort_by before (x ∷ xs) =
      ground (arith, any-insert_by before x (sort_by before xs), any-sort_by before xs)

-- Each element stands before all that follow, or ties with them.
module _ {A : Type 0} (before : A → A → Bool) where
  abbrev pub IsPairwise : List A → Type 0
  IsPairwise [] = Unit
  IsPairwise (x ∷ xs) = All (λ y. before x y ≡ true) xs × IsPairwise xs

  -- A list in order is sorted into itself.
  pub sort_by-IsPairwise_self : (xs : List A) → IsPairwise xs → sort_by before xs ≡ xs
  unfolding sort_by insert_by
  sort_by-IsPairwise_self [] h = refl
  sort_by-IsPairwise_self (x ∷ []) h = refl
  sort_by-IsPairwise_self (x ∷ y ∷ ys) h = rw (sort_by-IsPairwise_self (y ∷ ys) h.1, h.0.0) refl

  pub select-IsPairwise : (p : A → Bool) (xs : List A) → IsPairwise xs → IsPairwise (select p xs)
  select-IsPairwise p [] h = tt
  select-IsPairwise p (x ∷ xs) h = elim (Bool-cases (p x)) [
    | inl e ↦ rw e (select-All (λ y. before x y ≡ true) p xs h.0, select-IsPairwise p xs h.1)
    | inr e ↦ rw e (select-IsPairwise p xs h.1)
  ]

  module _ (total : (a b : A) → before a b ≡ false → before b a ≡ true)
      (trans : (a b c : A) → before a b ≡ true → before b c ≡ true → before a c ≡ true) where
    above :
        (x y : A) (ys : List A)
        → before x y ≡ true
        → All (λ z. before y z ≡ true) ys
        → All (λ z. before x z ≡ true) ys
    above x y ys e = All-map (λ z. trans x y z e) ys

    insert_by-IsPairwise :
        (x : A) (ys : List A) → IsPairwise ys → IsPairwise (insert_by before x ys)
    unfolding insert_by
    insert_by-IsPairwise x [] h = (tt, tt)
    insert_by-IsPairwise x (y ∷ ys) h = elim (Bool-cases (before x y)) [
      | inl e ↦ rw e ((e, above x y ys e h.0), h)
      | inr e ↦ rw e (
        insert_by-All before (λ z. before y z ≡ true) x ys (total x y e) h.0,
        insert_by-IsPairwise x ys h.1,
      )
    ]

    pub sort_by-IsPairwise : (xs : List A) → IsPairwise (sort_by before xs)
    unfolding sort_by
    sort_by-IsPairwise [] = tt
    sort_by-IsPairwise (x ∷ xs) = insert_by-IsPairwise x (sort_by before xs) (sort_by-IsPairwise xs)

-- ORDER BY a time and an ID
module _ {A : Type 0} (time : A → ℕ) (id : A → String) where
  abbrev pub is_earlier_by : A → A → Bool
  is_earlier_by a b = ltb (time a) (time b) || time a == time b && is_le (compare (id a) (id b))

  pub is_earlier_by_total : (a b : A) → is_earlier_by a b ≡ false → is_earlier_by b a ≡ true
  is_earlier_by_total a b h = ground (arith, is_le_total (id a) (id b))

module _ {A : Type 0} where
  -- LIMIT ?
  unfoldable pub first : ℕ → List A → List A
  first zero xs = []
  first (suc n) [] = []
  first (suc n) (x ∷ xs) = x ∷ first n xs

  -- The rows past the limit.
  pub past : ℕ → List A → List A
  past zero xs = xs
  past (suc n) [] = []
  past (suc n) (x ∷ xs) = past n xs

  pub first-past : (n : ℕ) (xs : List A) → first n xs ++ past n xs ≡ xs
  unfolding first past
  first-past zero xs = refl
  first-past (suc n) [] = refl
  first-past (suc n) (x ∷ xs) = ap (λ (ys : List A). x ∷ ys) (first-past n xs)

  pub length-first :
      (n : ℕ) (xs : List A) → length (first n xs) ≡ (if leb (length xs) n then length xs else n)
  unfolding first
  length-first zero [] = refl
  length-first zero (x ∷ xs) = ground arith
  length-first (suc n) [] = ground arith
  length-first (suc n) (x ∷ xs) = ground (arith, length-first n xs)

-- ## What a selection keeps and leaves
module _ {A : Type 0} (p : A → Bool) where
  pub select-holds : (xs : List A) → All (λ x. p x ≡ true) (select p xs)
  select-holds [] = tt
  select-holds (x ∷ xs) = elim (Bool-cases (p x)) [
    | inl e ↦ rw e (e, select-holds xs)
    | inr e ↦ rw e (select-holds xs)
  ]

  pub select-fails : (xs : List A) → All (λ x. p x ≡ false) (select (λ x. not (p x)) xs)
  select-fails [] = tt
  select-fails (x ∷ xs) = elim (Bool-cases (p x)) [
    | inl e ↦ rw e (select-fails xs)
    | inr e ↦ rw e (e, select-fails xs)
  ]

  pub select-perm : (xs : List A) → Perm (select p xs ++ select (λ x. not (p x)) xs) xs
  select-perm [] = Perm.refl []
  select-perm (x ∷ xs) =
      let rest = Perm.cons x (select-perm xs) in
      elim (Bool-cases (p x)) [
        | inl e ↦ rw e rest
        | inr e ↦ rw e (Perm.trans (perm_middle (select p xs) (select (λ x. not (p x)) xs)) rest)
      ]

module _ {A : Type 0} (R : A → A → Type 0) where
  -- Each element is related to the next one.
  abbrev pub IsOrdered : List A → Type 0
  IsOrdered [] = Unit
  IsOrdered (x ∷ []) = Unit
  IsOrdered (x ∷ y ∷ ys) = R x y × IsOrdered (y ∷ ys)

  pub IsSorted-IsOrdered :
      (before : A → A → Bool)
      → ((x y : A) → before x y ≡ true → R x y)
      → (xs : List A) → IsSorted before xs
      → IsOrdered xs
  IsSorted-IsOrdered before f [] h = tt
  IsSorted-IsOrdered before f (x ∷ []) h = tt
  IsSorted-IsOrdered before f (x ∷ y ∷ ys) h = (f x y h.0, IsSorted-IsOrdered before f (y ∷ ys) h.1)
