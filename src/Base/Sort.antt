-- ===== src/Base/Sort.antt =====
-- Python's `sorted`, which is stable. It is modelled by insertion, which puts an item in front of
-- the first one that is not smaller.
use mathlib.Core.Path.{◌≡◌, refl, ◌∙◌}
use mathlib.Core.Bool.{Bool, true, false}
use mathlib.Core.Logic.{◌⊎◌, inl, inr}
use mathlib.Core.List.{List, [], ◌∷◌, Perm}
use mathlib.Core.List.Perm
use native.Mathlib.Omega.{arith}
use tread_agent.Base.Tests.{if◌then◌else◌, Bool-cases}
use tread_agent.Base.Lists.{All, any, All-map, All-select, select}

module _ {ℓ} {A : Type ℓ} (le : A → A → Bool) where
  unfoldable pub insert_sorted : A → List A → List A
  insert_sorted x [] = x ∷ []
  insert_sorted x (y ∷ ys) = if le x y then x ∷ y ∷ ys else y ∷ insert_sorted x ys

  unfoldable pub sort : List A → List A
  unfolding insert_sorted
  sort [] = []
  sort (x ∷ xs) = insert_sorted x (sort xs)

  -- Each item is at most every later one.
  abbrev pub IsSorted : List A → Type 0
  IsSorted [] = Unit
  IsSorted (x ∷ xs) = All (λ y. le x y ≡ true) xs × IsSorted xs

  insert_sorted-perm : (x : A) (xs : List A) → Perm (insert_sorted x xs) (x ∷ xs)
  unfolding insert_sorted
  insert_sorted-perm x [] = Perm.refl (x ∷ [])
  insert_sorted-perm x (y ∷ ys) = elim (Bool-cases (le x y)) [
    | inl e ↦ rw (e, insert_sorted) (Perm.refl (x ∷ y ∷ ys))
    | inr e ↦
        rw (e, insert_sorted)
          (Perm.trans (Perm.cons y (insert_sorted-perm x ys)) (Perm.swap x y ys))
  ]

  pub sort-perm : (xs : List A) → Perm (sort xs) xs
  unfolding sort
  sort-perm [] = Perm.refl []
  sort-perm (x ∷ xs) = Perm.trans (insert_sorted-perm x (sort xs)) (Perm.cons x (sort-perm xs))

  module _ (total : (x y : A) → (le x y ≡ true) ⊎ (le y x ≡ true))
      (trans : (x y z : A) → le x y ≡ true → le y z ≡ true → le x z ≡ true) where
    flip : (x y : A) → le x y ≡ false → le y x ≡ true
    flip x y e = elim (total x y) [ inl h ↦ cc | inr h ↦ h ]

    insert_sorted-All :
        (z x : A) (xs : List A)
        → le z x ≡ true
        → All (λ y. le z y ≡ true) xs
        → All (λ y. le z y ≡ true) (insert_sorted x xs)
    unfolding insert_sorted
    insert_sorted-All z x [] h a = (h, tt)
    insert_sorted-All z x (y ∷ ys) h a = elim (Bool-cases (le x y)) [
      | inl e ↦ rw (e, insert_sorted) (h, a)
      | inr e ↦ rw (e, insert_sorted) (a.0, insert_sorted-All z x ys h a.1)
    ]

    insert_sorted-IsSorted : (x : A) (xs : List A) → IsSorted xs → IsSorted (insert_sorted x xs)
    unfolding insert_sorted
    insert_sorted-IsSorted x [] s = (tt, tt)
    insert_sorted-IsSorted x (y ∷ ys) s = elim (Bool-cases (le x y)) [
      | inl e ↦
          rw (e, insert_sorted)
            ((e, All-map (λ z. le y z ≡ true) (λ z. le x z ≡ true) (λ z. trans x y z e) ys s.0), s)
      | inr e ↦
          rw (e, insert_sorted)
            (insert_sorted-All y x ys (flip x y e) s.0, insert_sorted-IsSorted x ys s.1)
    ]

    pub sort-IsSorted : (xs : List A) → IsSorted (sort xs)
    unfolding sort
    sort-IsSorted [] = tt
    sort-IsSorted (x ∷ xs) = insert_sorted-IsSorted x (sort xs) (sort-IsSorted xs)

  any-insert_sorted :
      (test : A → Bool) (x : A) (xs : List A) → any test (insert_sorted x xs) ≡ any test (x ∷ xs)
  unfolding insert_sorted
  any-insert_sorted test x [] = refl
  any-insert_sorted test x (y ∷ ys) = ground (arith, any-insert_sorted test x ys)

  pub any-sort : (test : A → Bool) (xs : List A) → any test (sort xs) ≡ any test xs
  unfolding sort
  any-sort test [] = refl
  any-sort test (x ∷ xs) = any-insert_sorted test x (sort xs) ∙ ground (arith, any-sort test xs)

  -- A sorted list stays as it is.
  pub sort-eq_of_IsSorted : (xs : List A) → IsSorted xs → sort xs ≡ xs
  unfolding sort
  sort-eq_of_IsSorted [] s = refl
  sort-eq_of_IsSorted (x ∷ xs) s = rw (sort-eq_of_IsSorted xs s.1) (front x xs s.0)
    where
      front : (x : A) (xs : List A) → All (λ y. le x y ≡ true) xs → insert_sorted x xs ≡ x ∷ xs
      front x [] a = refl
      front x (y ∷ ys) a = rw (a.0, insert_sorted)

  pub IsSorted-select : (test : A → Bool) (xs : List A) → IsSorted xs → IsSorted (select test xs)
  IsSorted-select test [] s = tt
  IsSorted-select test (x ∷ xs) s = elim (Bool-cases (test x)) [
    | inl e ↦ rw e (All-select (λ y. le x y ≡ true) test xs s.0, IsSorted-select test xs s.1)
    | inr e ↦ rw e (IsSorted-select test xs s.1)
  ]
