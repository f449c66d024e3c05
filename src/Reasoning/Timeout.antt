-- ===== src/Reasoning/Timeout.antt =====
-- src/market_state_engine/reasoning/reliability/timeout.py: a deadline measured by the injected
-- clock. `E` is the state of the world that a reading and an attempt may change.
use tread_agent.Base.{ℕ, ◌-◌, ◌*◌, String, ltb, if◌then◌else◌}
use tread_agent.Reasoning.Types.{provider_timeout_error, Result, ok, err}

module _ {ℓ} {E A : Type ℓ} (read_ms : E → ℕ × E) where
  -- `elapsed = max(0, now - start)`
  unfoldable pub judge : String → ℕ → ℕ → A → ℕ × E → Result (A × ℕ) × E
  judge provider timeout_ms start a (now, e) =
      let elapsed = now - start in
      if ltb timeout_ms elapsed
      then (err (provider_timeout_error provider timeout_ms elapsed), e)
      else (ok (a, elapsed), e)

  -- What an attempt raises passes through.
  unfoldable pub finish : String → ℕ → ℕ → Result A × E → Result (A × ℕ) × E
  unfolding judge
  finish provider timeout_ms start (ok a, e) = judge provider timeout_ms start a (read_ms e)
  finish provider timeout_ms start (err x, e) = (err x, e)

  -- `TimeoutPolicy.run`
  unfoldable pub run_timed : ℕ → String → (E → Result A × E) → E → Result (A × ℕ) × E
  unfolding finish
  run_timed timeout_seconds provider attempt e =
      let (start, e') = read_ms e in finish provider (timeout_seconds * 1000) start (attempt e')
