-- ===== src/Base/Keyed.antt =====
-- Tables with a text as the primary key.
use Prim.Native.String.{String}
use mathlib.Core.Path.{◌≡◌, refl, sym, ◌∙◌, subst}
use mathlib.Core.Bool.{Bool, true, false}
use mathlib.Core.Option.{some}
use mathlib.Core.Logic.{inl, inr}
use mathlib.Core.List.{List, [], ◌∷◌}
use native.Mathlib.Omega.{arith}
use text.Mathlib.TextEquality.{eq_iff}
use research_agent_ops.Base.Tests.{Bool-cases}
use research_agent_ops.Base.Equality.{◌==◌, string_eq}
use research_agent_ops.Base.Lists.{All, any}
use research_agent_ops.Base.Table.{find, update, update-none, find-holds}

module _ {A : Type 0} (key : A → String) where
  -- WHERE key = ?
  abbrev pub keyed_by : String → A → Bool
  keyed_by k x = key x == k

  -- No two rows have the same key.
  abbrev pub IsKeyed : List A → Type 0
  IsKeyed [] = Unit
  IsKeyed (x ∷ xs) = (any (keyed_by (key x)) xs ≡ false) × IsKeyed xs

  -- Two keys that find rows of the same key find the same row.
  pub same_found :
      (j k : String) (x y : A) (xs : List A)
      → find (keyed_by k) xs ≡ some x
      → keyed_by j x ≡ true
      → find (keyed_by j) xs ≡ some y
      → x ≡ y
  same_found j k x y xs e p found =
      let at_k : key x ≡ k = (eq_iff (key x) k).0 (find-holds (keyed_by k) xs e) in
      let at_j : key x ≡ j = (eq_iff (key x) j).0 p in
      let same : k ≡ j = sym at_k ∙ at_j in
      let here : find (keyed_by j) xs ≡ some x =
        subst (λ i. find (keyed_by i) xs ≡ some x) same e in
      cc

  module _ (p : A → Bool) (f : A → A) (same : (x : A) → key (f x) ≡ key x) where
    pub any-update :
        (k : String) (xs : List A) → any (keyed_by k) (update p f xs) ≡ any (keyed_by k) xs
    any-update k [] = refl
    any-update k (x ∷ xs) = elim (Bool-cases (p x)) [
      | inl e ↦ rw (e, same x, any-update k xs)
      | inr e ↦ rw (e, any-update k xs)
    ]

    pub update-IsKeyed : (xs : List A) → IsKeyed xs → IsKeyed (update p f xs)
    update-IsKeyed [] h = tt
    update-IsKeyed (x ∷ xs) h = elim (Bool-cases (p x)) [
      | inl e ↦ rw (e, same x, any-update (key x) xs) (h.0, update-IsKeyed xs h.1)
      | inr e ↦ rw (e, any-update (key x) xs) (h.0, update-IsKeyed xs h.1)
    ]

  -- An update of the one row that a key finds.
  pub update-All_keyed :
      (P : A → Type 0) (k : String) (f : A → A) (xs : List A) {x : A}
      → IsKeyed xs
      → find (keyed_by k) xs ≡ some x
      → (P x → P (f x))
      → All P xs
      → All P (update (keyed_by k) f xs)
  update-All_keyed P k f [] u h step a = tt
  update-All_keyed P k f (y ∷ xs) {x} u h step a = elim (Bool-cases (keyed_by k y)) [
    | inl e ↦
        let same : y ≡ x = ground arith in
        let rest : any (keyed_by k) xs ≡ false = rw (← (eq_iff (key y) k).0 e) u.0 in
        rw (e, update-none (keyed_by k) f xs rest)
          (subst (λ z. P (f z)) (sym same) (step (subst P same a.0)), a.1)
    | inr e ↦ rw e (a.0, update-All_keyed P k f xs {x = x} u.1 (ground arith) step a.1)
  ]

-- A second column, which an update of the one row that a key finds keeps.
module _ {A : Type 0} (key col : A → String) (k : String) (f : A → A) where
  pub any-update_keyed :
      (c : String) (xs : List A) {x : A}
      → IsKeyed key xs
      → find (keyed_by key k) xs ≡ some x
      → col (f x) ≡ col x
      → any (keyed_by col c) (update (keyed_by key k) f xs) ≡ any (keyed_by col c) xs
  any-update_keyed c [] u h same = refl
  any-update_keyed c (y ∷ xs) {x} u h same = elim (Bool-cases (keyed_by key k y)) [
    | inl e ↦
        let here : y ≡ x = ground arith in
        let rest : any (keyed_by key k) xs ≡ false = rw (← (eq_iff (key y) k).0 e) u.0 in
        let kept : col (f y) ≡ col y = subst (λ z. col (f z) ≡ col z) (sym here) same in
        rw (e, update-none (keyed_by key k) f xs rest, kept) refl
    | inr e ↦ rw (e, any-update_keyed c xs {x = x} u.1 (ground arith) same) refl
  ]

  pub update-IsKeyed-IsKeyed :
      (xs : List A) {x : A}
      → IsKeyed key xs
      → find (keyed_by key k) xs ≡ some x
      → col (f x) ≡ col x
      → IsKeyed col xs
      → IsKeyed col (update (keyed_by key k) f xs)
  update-IsKeyed-IsKeyed [] u h same c = tt
  update-IsKeyed-IsKeyed (y ∷ xs) {x} u h same c = elim (Bool-cases (keyed_by key k y)) [
    | inl e ↦
        let here : y ≡ x = ground arith in
        let rest : any (keyed_by key k) xs ≡ false = rw (← (eq_iff (key y) k).0 e) u.0 in
        let kept : col (f y) ≡ col y = subst (λ z. col (f z) ≡ col z) (sym here) same in
        rw (e, update-none (keyed_by key k) f xs rest, kept) c
    | inr e ↦
        rw (e, any-update_keyed (col y) xs {x = x} u.1 (ground arith) same)
          (c.0, update-IsKeyed-IsKeyed xs {x = x} u.1 (ground arith) same c.1)
  ]
