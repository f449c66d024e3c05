-- ===== src/Reasoning/Retry/Ends.antt =====
-- What a retried call comes to: the rounds that failed before it, and how the last one ended.
use native.Mathlib.Numerals.{towards_suc}
use native.Mathlib.Nat.{pow-suc}
use tread_agent.Base.{
  ℕ, zero, suc, ◌+◌, ◌*◌, ◌^◌, ◌≤◌, ◌≡◌, refl, ap, ◌⊎◌, inl, inr, true, false, arith, Bool-cases,
  str_eq,
}
use tread_agent.Reasoning.Types.{Raised, Result, ok, err, is_retryable}
use tread_agent.Reasoning.Retry.{RetryPolicy, backoff_ms, conclude, attempts_from, run_retrying}

module _ {E A : Type 0} (policy : RetryPolicy) (attempt : E → Result A × E)
    (sleep : ℕ → E → E) where
  -- From round `i` in state `e`, `k` attempts in a row fail and may be retried; after each comes the
  -- sleep of its round; then the state is `s`.
  abbrev pub Fails : ℕ → ℕ → E → E → Type 0
  Fails i zero e s = e ≡ s
  Fails i (suc k) e s =
      (x : Raised) × (e' : E) × (attempt e ≡ (err x, e'))
      × (is_retryable x ≡ true)
      × Fails (suc i) k (sleep (backoff_ms policy i) e') s

  -- How the loop from round `i` with `left` rounds after it may end.
  abbrev pub Ends : ℕ → ℕ → E → Result (A × ℕ) × E → Type 0
  Ends left i e (ok (a, n), e') =
      (k : ℕ) × (s : E) × (k ≤ left) × (n ≡ i + k) × Fails i k e s × (attempt s ≡ (ok a, e'))
  Ends left i e (err x, e') =
      (k : ℕ) × (s : E) × (k ≤ left)
      × ((is_retryable x ≡ false) ⊎ (k ≡ left))
      × Fails i k e s
      × (attempt s ≡ (err x, e'))

  -- A round that fails and is retried comes before the rounds that follow.
  Ends-later :
      (left i : ℕ) (e e' : E) (x : Raised) (r : Result (A × ℕ) × E)
      → attempt e ≡ (err x, e')
      → is_retryable x ≡ true
      → Ends left (suc i) (sleep (backoff_ms policy i) e') r
      → Ends (suc left) i e r
  Ends-later left i e e' x (ok (a, n), e'') h t (k, s, le, en, f, g) =
      (suc k, s, omega arith, omega arith, (x, e', h, t, f), g)
  Ends-later left i e e' x (err y, e'') h t (k, s, le, inl p, f, g) =
      (suc k, s, omega arith, inl p, (x, e', h, t, f), g)
  Ends-later left i e e' x (err y, e'') h t (k, s, le, inr p, f, g) =
      (suc k, s, omega arith, inr (ap suc p), (x, e', h, t, f), g)

  -- The rounds by the result of the first attempt.
  last_round :
      (i : ℕ) (e : E) (r : Result A × E)
      → attempt e ≡ r
      → Ends zero i e (conclude policy attempt sleep i r (λ x e'. (err x, e')))
  last_round i e (ok a, e') h = (0, e, omega arith, omega arith, refl, h)
  last_round i e (err x, e') h = elim (Bool-cases (is_retryable x)) [
    | inl t ↦ rw t (0, e, omega arith, inr refl, refl, h)
    | inr t ↦ rw t (0, e, omega arith, inr refl, refl, h)
  ]

  one_round :
      (left i : ℕ) (e : E) (again : E → Result (A × ℕ) × E) (r : Result A × E)
      → attempt e ≡ r
      → ((e' : E) → Ends left (suc i) (sleep (backoff_ms policy i) e') (again e'))
      → Ends (suc left) i e (conclude policy attempt sleep i r (λ _ e'. again e'))
  one_round left i e again (ok a, e') h ih = (0, e, omega arith, omega arith, refl, h)
  one_round left i e again (err x, e') h ih = elim (Bool-cases (is_retryable x)) [
    | inl t ↦ rw t (Ends-later left i e e' x (again e') h t (ih e'))
    | inr t ↦ rw t (0, e, omega arith, inl t, refl, h)
  ]

  attempts_from-Ends :
      (left i : ℕ) (e : E) → Ends left i e (attempts_from policy attempt sleep left i e)
  unfolding attempts_from
  attempts_from-Ends zero i e = last_round i e (attempt e) refl
  attempts_from-Ends (suc left) i e =
      one_round left i e
        (λ e'. attempts_from policy attempt sleep left (suc i) (sleep (backoff_ms policy i) e'))
        (attempt e) refl (λ e'. attempts_from-Ends left (suc i) (sleep (backoff_ms policy i) e'))

  -- A retried call always ends. If it returns a result with `n` retries, then the first `n` attempts
  -- failed and were retried, with the backoff of its round slept after each, `n` is at most
  -- `retries`, and the next attempt gave the result. If it raises, the same holds of some number of
  -- rounds, and the exception is that of the next attempt: one that is not retried, or the last of
  -- the `retries + 1` attempts.
  pub run_retrying-Ends : (e : E) → Ends policy.retries 0 e (run_retrying policy attempt sleep e)
  unfolding run_retrying
  run_retrying-Ends e = attempts_from-Ends policy.retries 0 e

doubled : (b i : ℕ) → b * 2 ^ (i + 1) ≡ b * 2 ^ i + b * 2 ^ i
doubled b i = simp towards_suc (grind (arith, pow-suc 2 i))

-- The backoff never passes its cap, and by either type it does not fall from one round to the next.
pub backoff_ms_bounds :
    (p : RetryPolicy) (i : ℕ)
    → (backoff_ms p i ≤ p.backoff.max_ms) × (backoff_ms p i ≤ backoff_ms p (i + 1))
unfolding backoff_ms
backoff_ms_bounds p i = (
  ground arith,
  elim (Bool-cases (str_eq p.backoff.type "exponential")) [
    | inl e ↦ rw (e, backoff_ms) (omega (arith, doubled p.backoff.base_ms i))
    | inr e ↦ rw (e, backoff_ms) (omega arith)
  ],
)
