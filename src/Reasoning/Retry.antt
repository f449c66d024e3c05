-- ===== src/Reasoning/Retry.antt =====
-- src/market_state_engine/reasoning/reliability/retry.py: retries of one provider with backoff.
-- `E` is the state of the world that an attempt and a sleep change.
pub mod Ends
use tread_agent.Base.{
  ℕ, zero, suc, ◌+◌, ◌*◌, ◌^◌, ◌≤◌, ◌≡◌, String, not, min, str_eq, if◌then◌else◌,
}
use tread_agent.Reasoning.Types.{Raised, Result, ok, err, is_retryable}
use tread_agent.Reasoning.Config.{BackoffCfg}

-- `max(0, retries)` is `retries`: a natural number.
pub record RetryPolicy : Type 0 where
  pub retries : ℕ
  pub backoff : BackoffCfg

unfoldable pub max_attempts : RetryPolicy → ℕ
max_attempts p = p.retries + 1

unfoldable pub backoff_ms : RetryPolicy → ℕ → ℕ
backoff_ms p attempt_index =
    if not (str_eq p.backoff.type "exponential")
    then min p.backoff.base_ms p.backoff.max_ms
    else min (p.backoff.base_ms * 2 ^ attempt_index) p.backoff.max_ms

module _ {ℓ} {E A : Type ℓ} (policy : RetryPolicy) (attempt : E → Result A × E)
    (sleep : ℕ → E → E) where
  -- How one round of the loop ends, where `again` is what is done after a `ProviderCallError`.
  abbrev pub conclude : ℕ → Result A × E → (Raised → E → Result (A × ℕ) × E) → Result (A × ℕ) × E
  conclude i (ok a, e) again = (ok (a, i), e)
  conclude i (err x, e) again = if is_retryable x then again x e else (err x, e)

  -- The loop from round `i` on, with `left` rounds after it. Only between rounds does it sleep.
  unfoldable pub attempts_from : ℕ → ℕ → E → Result (A × ℕ) × E
  unfolding backoff_ms
  attempts_from zero i e = conclude i (attempt e) (λ x e'. (err x, e'))
  attempts_from (suc left) i e =
      conclude i (attempt e) (λ x e'. attempts_from left (suc i) (sleep (backoff_ms policy i) e'))

  -- `RetryPolicy.run`
  unfoldable pub run_retrying : E → Result (A × ℕ) × E
  unfolding attempts_from
  run_retrying = attempts_from policy.retries 0
