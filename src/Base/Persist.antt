-- ===== src/Base/Persist.antt =====
-- Tables in which a key goes on finding a row, and each such row goes on as a preorder allows.
use mathlib.Core.Path.{◌≡◌}
use mathlib.Core.Bool.{Bool, true, false}
use mathlib.Core.Option.{some}
use mathlib.Core.Logic.{inl, inr}
use mathlib.Core.List.{List, ◌∷◌}
use native.Mathlib.Omega.{arith}
use research_agent_ops.Base.Tests.{if◌then◌else◌, if-holds, Bool-cases}
use research_agent_ops.Base.Lists.{any}
use research_agent_ops.Base.Table.{find, update, any-of_find, find-update}

pub record IsReflTrans {A : Type 0} (C : A → A → Type 0) : Type 0 where
  pub stay : (x : A) → C x x
  pub go_on : (x y z : A) → C x y → C y z → C x z

-- What the key `k` finds in `xs`, it finds in `ys` too, as it was or changed as `C` allows.
pub record Persists {K A : Type 0} (has : K → A → Bool) (C : A → A → Type 0) (xs ys : List A)
    : Type 0 where
  pub at : (k : K) (x : A) → find (has k) xs ≡ some x → (y : A) × (find (has k) ys ≡ some y) × C x y

module _ {K A : Type 0} (has : K → A → Bool) {C : A → A → Type 0} (c : IsReflTrans C) where
  pub Persists-refl : (xs : List A) → Persists has C xs xs
  Persists-refl xs = record { at = λ k x h. (x, h, c.stay x) }

  pub Persists-trans :
      (xs ys zs : List A) → Persists has C xs ys → Persists has C ys zs → Persists has C xs zs
  Persists-trans xs ys zs h i = record {
    at = λ k x e.
        let (y, e', d) = h.at k x e in
        let (z, e'', d') = i.at k y e' in (z, e'', c.go_on x y z d d');
  }

  pub Persists-update :
      (p : A → Bool) (f : A → A) (xs : List A)
      → ((k : K) (x : A) → has k (f x) ≡ has k x)
      → ((k : K) (x : A) → find (has k) xs ≡ some x → p x ≡ true → C x (f x))
      → Persists has C xs (update p f xs)
  Persists-update p f xs same step = record {
    at = λ k x e. (
      if p x then f x else x,
      find-update (has k) p f xs {x = x} (same k) e,
      if-holds (C x) (p x) (f x) x (step k x e) (λ _. c.stay x),
    );
  }

  -- A new row that no key of an old one finds.
  pub Persists-add :
      (n : A) (xs : List A)
      → ((k : K) → has k n ≡ true → any (has k) xs ≡ false)
      → Persists has C xs (n ∷ xs)
  Persists-add n xs new = record {
    at = λ k x e. elim (Bool-cases (has k n)) [
      | inl same ↦ absurd (ground (arith, new k same, any-of_find (has k) xs {x = x}))
      | inr other ↦ (x, rw other e, c.stay x)
    ];
  }
