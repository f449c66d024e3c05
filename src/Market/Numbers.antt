-- ===== src/Market/Numbers.antt =====
-- The floats of Python that src/market_state_engine/scoring and assembly use, as a parameter, with
-- `max`, `min`, `sum` and the helpers of scoring/common.py.
use tread_agent.Base.{
  ℕ, ◌≤◌, ◌≡◌, subst, ◌⊎◌, inl, inr, String, Bool, true, false, List, [], ◌∷◌, length,
  if◌then◌else◌, Bool-cases,
}

-- `int(x)`: what it raises for an infinity or a NaN, a number below zero, or one from zero on.
pub data Truncated : Type 0 where
  not_finite : (raises : String) → Truncated
  below_zero : Truncated
  whole : ℕ → Truncated

-- `decimal n d` is the literal n·10⁻ᵈ; `round4` is `round(x, 4)`, `round_whole` is `round(x)`
-- of a number that is not negative, and `truncated` is `int(x)`.
pub record Numbers (V : Type 0) : Type 0 where
  pub is_lt : V → V → Bool
  pub is_le : V → V → Bool
  pub is_eq : V → V → Bool
  pub decimal : ℕ → ℕ → V
  pub negated : V → V
  pub absolute : V → V
  pub plus : V → V → V
  pub minus : V → V → V
  pub times : V → V → V
  pub over : V → V → V
  pub round4 : V → V
  pub round_whole : V → ℕ
  pub truncated : V → Truncated
  pub text_of : V → String

-- What the order and the roundings of IEEE 754 keep, without a NaN.
pub record IsOrdered {V : Type 0} (n : Numbers V) : Type 0 where
  pub total : (a b : V) → (n.is_le a b ≡ true) ⊎ (n.is_le b a ≡ true)
  pub lt_false : (a b : V) → n.is_lt a b ≡ false → n.is_le b a ≡ true
  pub lt_true : (a b : V) → n.is_lt a b ≡ true → n.is_le a b ≡ true
  pub below_one : n.is_le (n.decimal 0 0) (n.decimal 1 0) ≡ true
  pub above_minus_one : n.is_le (n.negated (n.decimal 1 0)) (n.decimal 1 0) ≡ true
  pub round4_mono : (a b : V) → n.is_le a b ≡ true → n.is_le (n.round4 a) (n.round4 b) ≡ true
  pub round4_zero : n.round4 (n.decimal 0 0) ≡ n.decimal 0 0
  pub round4_one : n.round4 (n.decimal 1 0) ≡ n.decimal 1 0
  pub round4_minus_one : n.round4 (n.negated (n.decimal 1 0)) ≡ n.negated (n.decimal 1 0)
  pub round_whole_bound :
      (a : V) → n.is_le a (n.decimal 1 0) ≡ true → n.round_whole (n.times (n.decimal 100 0) a) ≤ 100

module _ {V : Type 0} (n : Numbers V) where
  -- `max(a, b)` and `min(a, b)`
  abbrev pub larger : V → V → V
  larger a b = if n.is_lt a b then b else a

  abbrev pub smaller : V → V → V
  smaller a b = if n.is_lt b a then b else a

  abbrev pub zero_point : V
  zero_point = n.decimal 0 0

  abbrev pub one_point : V
  one_point = n.decimal 1 0

  abbrev pub minus_one : V
  minus_one = n.negated one_point

  -- `sum(xs)`, which starts from the integer 0
  unfoldable pub sum_from : V → List V → V
  sum_from acc [] = acc
  sum_from acc (x ∷ xs) = sum_from (n.plus acc x) xs

  abbrev pub sum : List V → V
  sum xs = sum_from zero_point xs

  -- `sum(xs) / len(xs)`
  abbrev pub over_length : V → List V → V
  over_length total xs = n.over total (n.decimal (length xs) 0)

  unfoldable pub clamped : V → V → V → V
  clamped value low high = larger low (smaller high value)

  -- Within [0, 1].
  abbrev pub unit : V → V
  unit x = clamped x zero_point one_point

  unfoldable pub products : List (V × V) → List V
  products [] = []
  products ((v, w) ∷ ps) = n.times v w ∷ products ps

  unfoldable pub weights_of : List (V × V) → List V
  weights_of [] = []
  weights_of ((v, w) ∷ ps) = w ∷ weights_of ps

  unfoldable pub weighted_mean : List (V × V) → V
  unfolding products weights_of sum_from
  weighted_mean pairs =
      if n.is_eq (sum (weights_of pairs)) zero_point
      then zero_point
      else n.over (sum (products pairs)) (sum (weights_of pairs))

  abbrev pub Between : V → V → V → Type 0
  Between low high x = (n.is_le low x ≡ true) × (n.is_le x high ≡ true)

  pub clamped-Between :
      (value low high : V)
      → IsOrdered n
      → n.is_le low high ≡ true
      → Between low high (clamped value low high)
  unfolding clamped
  clamped-Between value low high o h = elim (Bool-cases (n.is_lt value high)) [
    | inl e ↦ elim (Bool-cases (n.is_lt low value)) [
      | inl f ↦ rw (e, f) (o.lt_true low value f, o.lt_true value high e)
      | inr f ↦ rw (e, f) (upper low, h)
    ]
    | inr e ↦ elim (Bool-cases (n.is_lt low high)) [
      | inl f ↦ rw (e, f) (h, upper high)
      | inr f ↦ rw (e, f) (upper low, h)
    ]
  ]
    where
      upper : (x : V) → n.is_le x x ≡ true
      upper x = elim (o.total x x) [ inl k ↦ k | inr k ↦ k ]

  -- A number of the unit interval, or of [-1, 1], stays there when it is rounded.
  pub round4-unit :
      (x : V)
      → IsOrdered n
      → Between zero_point one_point x
      → Between zero_point one_point (n.round4 x)
  round4-unit x o b = (
    subst (λ z. n.is_le z (n.round4 x) ≡ true) o.round4_zero (o.round4_mono zero_point x b.0),
    subst (λ z. n.is_le (n.round4 x) z ≡ true) o.round4_one (o.round4_mono x one_point b.1),
  )

  pub round4-signed :
      (x : V)
      → IsOrdered n
      → Between minus_one one_point x
      → Between minus_one one_point (n.round4 x)
  round4-signed x o b = (
    subst (λ z. n.is_le z (n.round4 x) ≡ true) o.round4_minus_one (o.round4_mono minus_one x b.0),
    subst (λ z. n.is_le (n.round4 x) z ≡ true) o.round4_one (o.round4_mono x one_point b.1),
  )
