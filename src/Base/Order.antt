-- ===== src/Base/Order.antt =====
-- The order of texts by code points, as Python compares `str` values: total, transitive
-- and antisymmetric.
use Prim.Native.String.compare
use Prim.Native.String.{String, [], ◌∷◌, compare}
use mathlib.Core.Path.{◌≡◌, refl}
use mathlib.Core.Bool.{Bool, true}
use mathlib.Core.Logic.{◌⊎◌, inl, inr}
use native.Mathlib.Omega.{arith}
use text.Mathlib.TextEquality.{eq_iff}
use text.Mathlib.Text.{is_le, is_eq}

abbrev pub str_le : String → String → Bool
str_le s t = is_le (compare s t)

pub str_le_total : (s t : String) → (str_le s t ≡ true) ⊎ (str_le t s ≡ true)
str_le_total [] [] = inl refl
str_le_total [] (d ∷ t) = inl (rw (compare.nil-cons d t))
str_le_total (c ∷ s) [] = inr (rw (compare.nil-cons c s))
str_le_total (c ∷ s) (d ∷ t) =
    rw (compare.cons-cons c d s t, compare.cons-cons d c t s) (ground (arith, str_le_total s t))

pub str_le_trans : (s t u : String) → str_le s t ≡ true → str_le t u ≡ true → str_le s u ≡ true
str_le_trans [] t [] h k = refl
str_le_trans [] t (e ∷ u) h k = rw (compare.nil-cons e u)
str_le_trans (c ∷ s) [] u h k = let h' = rw (compare.cons-nil c s) at h in cc
str_le_trans (c ∷ s) (d ∷ t) [] h k = let k' = rw (compare.cons-nil d t) at k in cc
str_le_trans (c ∷ s) (d ∷ t) (e ∷ u) h k =
    let h' = rw (compare.cons-cons c d s t) at h in
    let k' = rw (compare.cons-cons d e t u) at k in
    rw (compare.cons-cons c e s u) (ground (arith, str_le_trans s t u))

same_of_le : (s t : String) → str_le s t ≡ true → str_le t s ≡ true → is_eq (compare s t) ≡ true
same_of_le [] [] h k = refl
same_of_le [] (d ∷ t) h k = let k' = rw (compare.cons-nil d t) at k in absurd cc
same_of_le (c ∷ s) [] h k = let h' = rw (compare.cons-nil c s) at h in absurd cc
same_of_le (c ∷ s) (d ∷ t) h k =
    let h' = rw (compare.cons-cons c d s t) at h in
    let k' = rw (compare.cons-cons d c t s) at k in
    rw (compare.cons-cons c d s t) (ground (arith, same_of_le s t))

pub str_le_antisym : (s t : String) → str_le s t ≡ true → str_le t s ≡ true → s ≡ t
str_le_antisym s t h k = (eq_iff s t).0 (same_of_le s t h k)
