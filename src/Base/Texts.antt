-- ===== src/Base/Texts.antt =====
-- The order of texts is total and transitive.
use Prim.Native.String.{String, compare}
use Prim.Native.String.compare
use mathlib.Core.Path.{◌≡◌, refl}
use mathlib.Core.Bool.{true, false}
use native.Mathlib.Omega.{arith}
use text.Mathlib.Text.{is_le}

pub is_le_total : (s t : String) → is_le (compare s t) ≡ false → is_le (compare t s) ≡ true
is_le_total String.[] String.[] h = refl
is_le_total String.[] (String.◌∷◌ d t) h = ground (arith, compare.nil-cons d t)
is_le_total (String.◌∷◌ c s) String.[] h = ground (arith, compare.nil-cons c s)
is_le_total (String.◌∷◌ c s) (String.◌∷◌ d t) h =
    ground (arith, compare.cons-cons c d s t, compare.cons-cons d c t s, is_le_total s t)

pub is_le_trans :
    (s t u : String)
    → is_le (compare s t) ≡ true
    → is_le (compare t u) ≡ true
    → is_le (compare s u) ≡ true
is_le_trans String.[] t String.[] h k = refl
is_le_trans String.[] t (String.◌∷◌ e u) h k = ground (arith, compare.nil-cons e u)
is_le_trans (String.◌∷◌ c s) String.[] u h k = ground (arith, compare.cons-nil c s)
is_le_trans (String.◌∷◌ c s) (String.◌∷◌ d t) String.[] h k = ground (arith, compare.cons-nil d t)
is_le_trans (String.◌∷◌ c s) (String.◌∷◌ d t) (String.◌∷◌ e u) h k = ground (
  arith,
  compare.cons-cons c d s t,
  compare.cons-cons d e t u,
  compare.cons-cons c e s u,
  is_le_trans s t u,
)
