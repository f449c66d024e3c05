-- ===== src/Base/Lists.antt =====
-- Lists measured and cut by native numbers, under the library's names, and predicates on them.
use Prim.Native.Nat.{ℕ, zero, suc, ◌+◌, ◌≤◌}
use mathlib.Core.Path.{◌≡◌, refl}
use mathlib.Core.Bool.{Bool, true, false, ◌||◌}
use mathlib.Core.List.{List, [], ◌∷◌, ◌++◌}
use native.Mathlib.Omega.{arith}
use mathlib.Core.Logic.{◌⊎◌, ◌↔◌, inl, inr}
use tread_agent.Base.Tests.{Bool-cases, if◌then◌else◌}

module _ {ℓ} {A : Type ℓ} where
  abbrev pub length : List A → ℕ
  length [] = 0
  length (x ∷ xs) = suc (length xs)

  abbrev pub is_empty : List A → Bool
  is_empty [] = true
  is_empty (x ∷ xs) = false

  -- `bool(xs)`
  abbrev pub is_nonempty : List A → Bool
  is_nonempty [] = false
  is_nonempty (x ∷ xs) = true

  abbrev pub drop : ℕ → List A → List A
  drop zero xs = xs
  drop (suc n) [] = []
  drop (suc n) (x ∷ xs) = drop n xs

  abbrev pub take : ℕ → List A → List A
  take zero xs = []
  take (suc n) [] = []
  take (suc n) (x ∷ xs) = x ∷ take n xs

  -- `[x for x in xs if test(x)]`
  abbrev pub select : (A → Bool) → List A → List A
  select test [] = []
  select test (x ∷ xs) = if test x then x ∷ select test xs else select test xs

  -- `any(test(x) for x in xs)`
  abbrev pub any : (A → Bool) → List A → Bool
  any test [] = false
  any test (x ∷ xs) = if test x then true else any test xs

  -- `sum(1 for x in xs if test(x))`
  abbrev pub count_if : (A → Bool) → List A → ℕ
  count_if test [] = 0
  count_if test (x ∷ xs) = if test x then suc (count_if test xs) else count_if test xs

  abbrev pub All {κ} : (A → Type κ) → List A → Type κ
  All P [] = Unit
  All P (x ∷ xs) = P x × All P xs

  pub length-append : (xs ys : List A) → length (xs ++ ys) ≡ length xs + length ys
  length-append [] ys = omega arith
  length-append (x ∷ xs) ys = omega (arith, length-append xs ys)

  pub All-append {κ} : (P : A → Type κ) (xs ys : List A) → All P xs → All P ys → All P (xs ++ ys)
  All-append P [] ys hx hy = hy
  All-append P (x ∷ xs) ys hx hy = (hx.0, All-append P xs ys hx.1 hy)

  pub All-map {κ μ} :
      (P : A → Type κ) (Q : A → Type μ)
      → ((a : A) → P a → Q a)
      → (xs : List A) → All P xs
      → All Q xs
  All-map P Q f [] h = tt
  All-map P Q f (x ∷ xs) h = (f x h.0, All-map P Q f xs h.1)

  pub All-both {κ μ ν} :
      (P : A → Type κ) (Q : A → Type μ) (R : A → Type ν)
      → ((a : A) → P a → Q a → R a)
      → (xs : List A) → All P xs
      → All Q xs
      → All R xs
  All-both P Q R f [] h k = tt
  All-both P Q R f (x ∷ xs) h k = (f x h.0 k.0, All-both P Q R f xs h.1 k.1)

  pub count_if-le-length : (test : A → Bool) (xs : List A) → count_if test xs ≤ length xs
  count_if-le-length test [] = omega arith
  count_if-le-length test (x ∷ xs) = ground (arith, count_if-le-length test xs)

  pub length-select : (test : A → Bool) (xs : List A) → length (select test xs) ≡ count_if test xs
  length-select test [] = refl
  length-select test (x ∷ xs) = ground (arith, length-select test xs)

  pub select-append :
      (test : A → Bool) (xs ys : List A) → select test (xs ++ ys) ≡ select test xs ++ select test ys
  select-append test [] ys = refl
  select-append test (x ∷ xs) ys = ground (arith, select-append test xs ys)

  pub All-select {κ} :
      (P : A → Type κ) (test : A → Bool) (xs : List A) → All P xs → All P (select test xs)
  All-select P test [] a = tt
  All-select P test (x ∷ xs) a = elim (Bool-cases (test x)) [
    | inl e ↦ rw e (a.0, All-select P test xs a.1)
    | inr e ↦ rw e (All-select P test xs a.1)
  ]

  -- An item has it.
  abbrev pub Some : (A → Type 0) → List A → Type 0
  Some P [] = ⊥
  Some P (x ∷ xs) = P x ⊎ Some P xs

  pub any-Some :
      (test : A → Bool) (P : A → Type 0)
      → ((x : A) → test x ≡ true → P x)
      → (xs : List A) → any test xs ≡ true
      → Some P xs
  any-Some test P f [] h = absurd cc
  any-Some test P f (x ∷ xs) h = elim (Bool-cases (test x)) [
    | inl e ↦ inl (f x e)
    | inr e ↦ inr (any-Some test P f xs (ground (arith, e, h)))
  ]

  pub Some-any :
      (test : A → Bool) (P : A → Type 0)
      → ((x : A) → P x → test x ≡ true)
      → (xs : List A) → Some P xs
      → any test xs ≡ true
  Some-any test P f [] h = absurd h
  Some-any test P f (x ∷ xs) (inl p) = rw (f x p) refl
  Some-any test P f (x ∷ xs) (inr s) = ground (arith, Some-any test P f xs s)

  pub any-append-false :
      (test : A → Bool) (xs ys : List A)
      → (any test (xs ++ ys) ≡ false) ↔ ((any test xs ≡ false) × (any test ys ≡ false))
  any-append-false test [] ys = (λ h. (refl, h), λ h. h.1)
  any-append-false test (x ∷ xs) ys = ground (arith, any-append-false test xs ys)

  pub any-append :
      (test : A → Bool) (xs ys : List A) → any test (xs ++ ys) ≡ (any test xs || any test ys)
  any-append test [] ys = refl
  any-append test (x ∷ xs) ys = ground (arith, any-append test xs ys)

  pub All-any : (test : A → Bool) (xs : List A) → All (λ x. test x ≡ false) xs → any test xs ≡ false
  All-any test [] a = refl
  All-any test (x ∷ xs) a = rw a.0 (All-any test xs a.1)

  pub All-each : (P : A → Type 0) → ((x : A) → P x) → (xs : List A) → All P xs
  All-each P f [] = tt
  All-each P f (x ∷ xs) = (f x, All-each P f xs)
