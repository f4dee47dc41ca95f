-- ===== src/Base/Slices.antt =====
-- Texts as lists of numbers: the tests and slices of Python's bytes and str that
-- src/researchctl/services/linear_delivery.py and src/researchctl/services/dependency_impact.py use.
use Prim.Native.Nat.{ℕ, zero, suc, ◌+◌, ◌-◌}
use Prim.Native.Char.{code}
use Prim.Native.String.{String}
use mathlib.Core.Path.{◌≡◌, refl, ap}
use mathlib.Core.Bool.{Bool, true, false, ◌&&◌, ◌||◌}
use mathlib.Core.List.{List, [], ◌∷◌, ◌++◌}
use mathlib.Core.Logic.{inl, inr}
use native.Mathlib.Omega.{arith}
use research_agent_ops.Base.Tests.{Bool-cases}
use research_agent_ops.Base.Equality.{◌==◌, nat_eq}
use research_agent_ops.Base.Lists.{length}

abbrev pub Bytes : Type 0
Bytes = List ℕ

-- The code points of a text; its ASCII bytes, where it has no others.
abbrev pub codes : String → Bytes
codes String.[] = []
codes (String.◌∷◌ c s) = code c ∷ codes s

unfoldable pub bytes_eq : Bytes → Bytes → Bool
bytes_eq [] [] = true
bytes_eq [] (y ∷ ys) = false
bytes_eq (x ∷ xs) [] = false
bytes_eq (x ∷ xs) (y ∷ ys) = x == y && bytes_eq xs ys

-- `bytes.endswith`
unfoldable pub ends_with : Bytes → Bytes → Bool
unfolding bytes_eq
ends_with [] suffix = bytes_eq [] suffix
ends_with (x ∷ xs) suffix = bytes_eq (x ∷ xs) suffix || ends_with xs suffix

-- `bytes.startswith`
unfoldable pub starts_with : Bytes → Bytes → Bool
starts_with xs [] = true
starts_with [] (p ∷ ps) = false
starts_with (x ∷ xs) (p ∷ ps) = x == p && starts_with xs ps

-- `part in whole`
unfoldable pub contains : Bytes → Bytes → Bool
unfolding starts_with
contains part [] = starts_with [] part
contains part (x ∷ xs) = starts_with (x ∷ xs) part || contains part xs

-- `xs[:n]`
unfoldable pub take : ℕ → Bytes → Bytes
take zero xs = []
take (suc n) [] = []
take (suc n) (x ∷ xs) = x ∷ take n xs

pub bytes_eq_self : (xs : Bytes) → bytes_eq xs xs ≡ true
unfolding bytes_eq
bytes_eq_self [] = refl
bytes_eq_self (x ∷ xs) = ground (arith, bytes_eq_self xs)

pub ends_with-append : (xs ys : Bytes) → ends_with (xs ++ ys) ys ≡ true
unfolding ends_with
ends_with-append [] [] = refl
ends_with-append [] (y ∷ ys) = ground (arith, bytes_eq_self (y ∷ ys))
ends_with-append (x ∷ xs) ys = ground (arith, ends_with-append xs ys)

pub length-append : (xs ys : Bytes) → length (xs ++ ys) ≡ length xs + length ys
length-append [] ys = omega arith
length-append (x ∷ xs) ys = omega (arith, length-append xs ys)

pub take-append : (xs ys : Bytes) → take (length xs) (xs ++ ys) ≡ xs
unfolding take
take-append [] [] = refl
take-append [] (y ∷ ys) = refl
take-append (x ∷ xs) ys = ground (arith, take-append xs ys)

-- The part of a body ahead of a suffix.
pub take_ahead :
    (payload suffix : Bytes)
    → take (length (payload ++ suffix) - length suffix) (payload ++ suffix) ≡ payload
take_ahead payload suffix =
    let n : length (payload ++ suffix) - length suffix ≡ length payload =
      omega (arith, length-append payload suffix) in
    rw n (take-append payload suffix)

pub bytes_eq-path : (xs ys : Bytes) → bytes_eq xs ys ≡ true → xs ≡ ys
unfolding bytes_eq
bytes_eq-path [] [] h = refl
bytes_eq-path [] (y ∷ ys) h = cc
bytes_eq-path (x ∷ xs) [] h = cc
bytes_eq-path (x ∷ xs) (y ∷ ys) h = ground (arith, bytes_eq-path xs ys)

-- A body that ends with a suffix has something ahead of it.
pub ahead_of :
    (body suffix : Bytes) → ends_with body suffix ≡ true → (xs : Bytes) × (body ≡ xs ++ suffix)
unfolding ends_with
ahead_of [] suffix h = ([], bytes_eq-path [] suffix h)
ahead_of (x ∷ xs) suffix h = elim (Bool-cases (bytes_eq (x ∷ xs) suffix)) [
  | inl e ↦ ([], bytes_eq-path (x ∷ xs) suffix e)
  | inr e ↦
      let (ys, p) = ahead_of xs suffix (ground arith) in (x ∷ ys, ap (λ (zs : Bytes). x ∷ zs) p)
]
