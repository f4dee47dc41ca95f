-- ===== src/Base/Table.antt =====
-- Tables of the SQLite database: the list of the rows, newest first. No query relies on the
-- order of a table unless it says ORDER BY.
use mathlib.Core.Path.{◌≡◌, refl, subst}
use mathlib.Core.Bool.{Bool, true, false}
use mathlib.Core.Logic.{inl, inr}
use mathlib.Core.Option.{Option, none, some}
use mathlib.Core.List.{List, [], ◌∷◌}
use native.Mathlib.Omega.{arith}
use research_agent_ops.Base.Tests.{if◌then◌else◌, Bool-cases}
use research_agent_ops.Base.Lists.{All, any}

module _ {ℓ} {A : Type ℓ} where
  -- SELECT ... WHERE p, then fetchone()
  abbrev pub find : (A → Bool) → List A → Option A
  find p [] = none
  find p (x ∷ xs) = if p x then some x else find p xs

  -- SELECT ... WHERE p, then fetchall()
  abbrev pub select : (A → Bool) → List A → List A
  select p [] = []
  select p (x ∷ xs) = if p x then x ∷ select p xs else select p xs

  -- UPDATE ... SET f WHERE p
  abbrev pub update : (A → Bool) → (A → A) → List A → List A
  update p f [] = []
  update p f (x ∷ xs) = (if p x then f x else x) ∷ update p f xs

  -- DELETE ... WHERE p
  abbrev pub delete : (A → Bool) → List A → List A
  delete p [] = []
  delete p (x ∷ xs) = if p x then delete p xs else x ∷ delete p xs

  pub find-holds : (p : A → Bool) (xs : List A) {x : A} → find p xs ≡ some x → p x ≡ true
  find-holds p [] h = cc
  find-holds p (y ∷ xs) h = elim (Bool-cases (p y)) [
    | inl e ↦ ground arith
    | inr e ↦ find-holds p xs (ground arith)
  ]

  pub find-none : (p : A → Bool) (xs : List A) → find p xs ≡ none → any p xs ≡ false
  find-none p [] h = refl
  find-none p (y ∷ xs) h = ground (arith, find-none p xs)

  pub any-of_find : (p : A → Bool) (xs : List A) {x : A} → find p xs ≡ some x → any p xs ≡ true
  any-of_find p [] h = cc
  any-of_find p (y ∷ xs) {x} h = ground (arith, any-of_find p xs {x = x})

  pub find-of_any : (p : A → Bool) (xs : List A) → any p xs ≡ false → find p xs ≡ none
  find-of_any p [] h = refl
  find-of_any p (y ∷ xs) h = ground (arith, find-of_any p xs)

  -- An update that keeps the test changes the row that is found, and finds it again.
  pub find-update_self :
      (p : A → Bool) (f : A → A) (xs : List A) {x : A}
      → ((y : A) → p y ≡ true → p (f y) ≡ true)
      → find p xs ≡ some x
      → find p (update p f xs) ≡ some (f x)
  find-update_self p f [] k h = cc
  find-update_self p f (y ∷ xs) k h = elim (Bool-cases (p y)) [
    | inl e ↦ ground (arith, k y)
    | inr e ↦ rw (e, e) (find-update_self p f xs k (ground arith))
  ]

  -- An update of rows that a second test passes over, before and after, does not show in it.
  pub find-update_other :
      (q p : A → Bool) (f : A → A) (xs : List A)
      → ((y : A) → p y ≡ true → (q y ≡ false) × (q (f y) ≡ false))
      → find q (update p f xs) ≡ find q xs
  find-update_other q p f [] k = refl
  find-update_other q p f (y ∷ xs) k = elim (Bool-cases (p y)) [
    | inl e ↦ rw (e, (k y e).0, (k y e).1) (find-update_other q p f xs k)
    | inr e ↦ rw e (ground (arith, find-update_other q p f xs k))
  ]

module _ {ℓ κ} {A : Type ℓ} (P : A → Type κ) where
  pub find-All : (p : A → Bool) (xs : List A) {x : A} → All P xs → find p xs ≡ some x → P x
  find-All p [] a h = cc
  find-All p (y ∷ xs) {x} a h = elim (Bool-cases (p y)) [
    | inl e ↦ let same : y ≡ x = ground arith in subst P same a.0
    | inr e ↦ find-All p xs a.1 (ground arith)
  ]

  pub update-All :
      (p : A → Bool) (f : A → A) (xs : List A)
      → ((x : A) → p x ≡ true → P x → P (f x))
      → All P xs
      → All P (update p f xs)
  update-All p f [] k a = tt
  update-All p f (y ∷ xs) k a = elim (Bool-cases (p y)) [
    | inl e ↦ rw e (k y e a.0, update-All p f xs k a.1)
    | inr e ↦ rw e (a.0, update-All p f xs k a.1)
  ]

  pub select-All : (p : A → Bool) (xs : List A) → All P xs → All P (select p xs)
  select-All p [] a = tt
  select-All p (y ∷ xs) a = elim (Bool-cases (p y)) [
    | inl e ↦ rw e (a.0, select-All p xs a.1)
    | inr e ↦ rw e (select-All p xs a.1)
  ]

  pub delete-All : (p : A → Bool) (xs : List A) → All P xs → All P (delete p xs)
  delete-All p [] a = tt
  delete-All p (y ∷ xs) a = elim (Bool-cases (p y)) [
    | inl e ↦ rw e (delete-All p xs a.1)
    | inr e ↦ rw e (a.0, delete-All p xs a.1)
  ]

-- An update, by what it does to the rows that it changes and to the others.
pub update-All_split {ℓ κ ι} :
    {A : Type ℓ} (P : A → Type κ) (Q : A → Type ι) (p : A → Bool) (f : A → A) (xs : List A)
    → ((x : A) → p x ≡ true → P x → Q (f x))
    → ((x : A) → p x ≡ false → P x → Q x)
    → All P xs
    → All Q (update p f xs)
update-All_split P Q p f [] k l a = tt
update-All_split P Q p f (y ∷ xs) k l a = elim (Bool-cases (p y)) [
  | inl e ↦ rw e (k y e a.0, update-All_split P Q p f xs k l a.1)
  | inr e ↦ rw e (l y e a.0, update-All_split P Q p f xs k l a.1)
]

find-update_here {ℓ} :
    {A : Type ℓ} (q p : A → Bool) (f : A → A) (y : A) (xs : List A) {x : A}
    → ((z : A) → q (f z) ≡ q z)
    → q y ≡ true
    → y ≡ x
    → find q (update p f (y ∷ xs)) ≡ some (if p x then f x else x)
find-update_here q p f y xs {x} k e same = ground (arith, k y)

find-update_there {ℓ} :
    {A : Type ℓ} (q p : A → Bool) (f : A → A) (y : A) (xs : List A) {x : A}
    → ((z : A) → q (f z) ≡ q z)
    → q y ≡ false
    → find q (update p f xs) ≡ some x
    → find q (update p f (y ∷ xs)) ≡ some x
find-update_there q p f y xs k e h = ground (arith, k y)

-- What a query finds behind an update that keeps its test.
pub find-update {ℓ} :
    {A : Type ℓ} (q p : A → Bool) (f : A → A) (xs : List A) {x : A}
    → ((y : A) → q (f y) ≡ q y)
    → find q xs ≡ some x
    → find q (update p f xs) ≡ some (if p x then f x else x)
find-update q p f [] k h = cc
find-update q p f (y ∷ xs) {x} k h = elim (Bool-cases (q y)) [
  | inl e ↦ find-update_here q p f y xs k e (ground arith)
  | inr e ↦ find-update_there q p f y xs k e (find-update q p f xs {x = x} k (ground arith))
]

-- An update that fits no row changes nothing.
pub update-none {ℓ} :
    {A : Type ℓ} (p : A → Bool) (f : A → A) (xs : List A) → any p xs ≡ false → update p f xs ≡ xs
update-none p f [] h = refl
update-none p f (y ∷ xs) h = ground (arith, update-none p f xs)
