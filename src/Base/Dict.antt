-- ===== src/Base/Dict.antt =====
-- A Python dict keyed by texts, in insertion order.
use Prim.Native.String.{String}
use mathlib.Core.Path.{◌≡◌, refl, subst}
use mathlib.Core.Logic.{inl, inr}
use mathlib.Core.Option.{Option, none, some}
use mathlib.Core.List.{List, [], ◌∷◌}
use native.Mathlib.Omega.{arith}
use text.Mathlib.Text.{◌==◌ as str_eq}
use text.Mathlib.TextEquality.{eq_iff}
use tread_agent.Base.Lists.{All}
use tread_agent.Base.Tests.{Bool-cases, if◌then◌else◌}

abbrev pub Dict {ℓ} : Type ℓ → Type ℓ
Dict V = List (String × V)

module _ {ℓ} {V : Type ℓ} where
  -- `d.get(k)`
  unfoldable pub lookup : String → Dict V → Option V
  lookup k [] = none
  lookup k ((j, v) ∷ d) = if str_eq j k then some v else lookup k d

  -- `d[k] = v`
  unfoldable pub insert : String → V → Dict V → Dict V
  insert k v [] = (k, v) ∷ []
  insert k v ((j, w) ∷ d) = if str_eq j k then (j, v) ∷ d else (j, w) ∷ insert k v d

  pub lookup-insert :
      (k j : String) (v : V) (d : Dict V)
      → lookup j (insert k v d) ≡ (if str_eq k j then some v else lookup j d)
  unfolding lookup insert
  lookup-insert k j v [] = refl
  lookup-insert k j v ((i, w) ∷ d) =
      ground (arith, eq_iff k j, eq_iff i k, eq_iff i j, lookup-insert k j v d)

pub insert-All {ℓ κ} :
    {A : Type ℓ} (P : String × A → Type κ) (k : String) (v : A) (d : Dict A)
    → ((j : String) → j ≡ k → P (j, v))
    → All P d
    → All P (insert k v d)
unfolding insert
insert-All P k v [] h a = (h k refl, tt)
insert-All P k v ((j, w) ∷ d) h a = elim (Bool-cases (str_eq j k)) [
  | inl e ↦ rw e (h j ((eq_iff j k).0 e), a.1)
  | inr e ↦ rw e (a.0, insert-All P k v d h a.1)
]

pub lookup-All {ℓ κ} :
    {A : Type ℓ} (P : String × A → Type κ) (k : String) (v : A) (d : Dict A)
    → All P d
    → lookup k d ≡ some v
    → P (k, v)
unfolding lookup
lookup-All P k v [] a h = absurd cc
lookup-All P k v ((j, w) ∷ d) a h = elim (Bool-cases (str_eq j k)) [
  | inl e ↦
      let same : w ≡ v = ground (arith, e, h) in
      subst (λ i. P (i, v)) ((eq_iff j k).0 e) (subst (λ u. P (j, u)) same a.0)
  | inr e ↦ lookup-All P k v d a.1 (ground (arith, e, h))
]
