-- ===== src/Reasoning/Samples.antt =====
-- Small inputs for the reasoning layer: what the definitions compute on them, and the theorems
-- applied to them.
mod Chains
mod Runs
mod Replayed
use mathlib.Core.List.{Nodup}
use tread_agent.Base.{
  ℕ, zero, suc, ◌+◌, ◌-◌, ◌≤◌, ◌<◌, ◌≡◌, refl, ap, String, Bool, true, false, Option, none, some,
  List, [], ◌∷◌, ◌++◌, map, count_if, leb, arith, str_eq, if◌then◌else◌,
}
use tread_agent.Base.Dict.{lookup, insert}
use tread_agent.Base.Sort.{sort, insert_sorted}
use tread_agent.Reasoning.Types.{
  LlmJob, sentiment, Outcome, success, timeout, error, circuit_open, Raised, provider_call_error,
  structured_output_error, Result, ok, err, RenderedPrompt, CallParams, RawProviderResult,
}
use tread_agent.Reasoning.Breaker.{
  CircuitBreakerCfg, CircuitBreaker, prune, closed, opened, half_open, new_breaker, allows,
  maybe_half_open, record_success, record_failure, polled, succeeded, failed, run as run_breaker,
  step,
}
use tread_agent.Reasoning.Breaker.Invariant.{IsValid, run-new_breaker-IsValid}
use tread_agent.Reasoning.Breaker.Window.{Window, record_success-Window, record_failure-Window}
use tread_agent.Reasoning.Breaker.Cooldown.{cooldown_blocks, probe_decides, polls}
use tread_agent.Reasoning.Health.{
  Rolling, HealthMonitor, new_monitor, roll, snapshot, record_outcome, ProviderHealth,
}
use tread_agent.Reasoning.Health.Rolled.{Entry, record_all, roll-record_all}
use tread_agent.Reasoning.Health.Snapshot.{IsConsistent, snapshot-IsConsistent}

abbrev cfg : CircuitBreakerCfg
cfg = record { failure_threshold = 2; window_seconds = 100; half_open_after_seconds = 60 }

-- Two failures in the window open the breaker; the probe at 260 fails, the one at 330 succeeds.
breaker_runs :
    run_breaker (new_breaker cfg) (
      failed 10 10
      ∷ failed 150 150
      ∷ failed 200 200
      ∷ polled 259
      ∷ polled 260
      ∷ failed 261 261
      ∷ [])
    ≡ record { cfg = cfg; failures = []; state = opened; opened_at = some 261 }
unfolding run_breaker step new_breaker prune
breaker_runs = refl

run-new_breaker-IsValid_example :
    IsValid
      (run_breaker (new_breaker cfg) (failed 10 10 ∷ failed 20 20 ∷ polled 90 ∷ succeeded ∷ []))
run-new_breaker-IsValid_example =
    run-new_breaker-IsValid cfg (failed 10 10 ∷ failed 20 20 ∷ polled 90 ∷ succeeded ∷ [])
      (omega arith)

abbrev one_failure : CircuitBreaker
one_failure = record { cfg = cfg; failures = 10 ∷ []; state = closed; opened_at = none }

abbrev tripped : CircuitBreaker
tripped = record { cfg = cfg; failures = []; state = opened; opened_at = some 40 }

abbrev one_failure-Window : Window one_failure (10 ∷ []) 10
one_failure-Window = record {
  is_closed = refl;
  sorted = (tt, tt);
  seen = (omega arith, tt);
  kept = refl;
}

record_failure-Window_example :
    (2 ≤ count_if (leb 0) (10 ∷ 40 ∷ []) → record_failure 40 40 one_failure ≡ tripped)
    × (count_if (leb 0) (10 ∷ 40 ∷ []) < 2
        → Window (record_failure 40 40 one_failure) (10 ∷ 40 ∷ []) 40)
record_failure-Window_example =
    record_failure-Window one_failure (10 ∷ []) 10 40 one_failure-Window (omega arith) 40

cooldown_blocks_example :
    (run_breaker tripped (polls (50 ∷ 99 ∷ [])) ≡ tripped)
    × ((allows 100 (run_breaker tripped (polls (50 ∷ 99 ∷ [])))).0 ≡ true)
    × (40 + 60 ≤ 100
        → (allows 100 (run_breaker tripped (polls (50 ∷ 99 ∷ [])))).1
          ≡ record tripped { state = half_open })
cooldown_blocks_example = cooldown_blocks tripped 40 refl refl (50 ∷ 99 ∷ []) 100 (omega arith)

probe_decides_example :
    (record_success (maybe_half_open 100 tripped) ≡ new_breaker cfg)
    × (record_failure 103 103 (maybe_half_open 100 tripped)
        ≡ record tripped { failures = []; state = opened; opened_at = some 103 })
    × ((allows 162 (record_failure 103 103 (maybe_half_open 100 tripped))).0 ≡ false)
probe_decides_example = probe_decides tripped 40 refl refl 100 103 103 162 (omega arith)

abbrev entries : List Entry
entries =
    record { provider = "a"; outcome = success; latency_ms = 5 }
    ∷ record { provider = "b"; outcome = timeout; latency_ms = 0 }
    ∷ record { provider = "a"; outcome = error; latency_ms = 0 }
    ∷ record { provider = "a"; outcome = success; latency_ms = 7 }
    ∷ []

roll-record_all_example :
    roll "a" (record_all entries (new_monitor 2))
    ≡ record { outcomes = error ∷ success ∷ []; latencies = 5 ∷ 7 ∷ [] }
roll-record_all_example = roll-record_all 2 entries "a"

snapshot-IsConsistent_example : IsConsistent (snapshot "a" (record_all entries (new_monitor 2)))
snapshot-IsConsistent_example = snapshot-IsConsistent "a" (record_all entries (new_monitor 2))
