-- ===== src/Reasoning/Health.antt =====
-- src/market_state_engine/reasoning/reliability/health.py: rolling statistics for each provider. A
-- rate or a mean is the fraction that the source divides; latencies are natural numbers, on which
-- `max(0, latency_ms)` changes nothing.
pub mod Rolled
pub mod Snapshot
use tread_agent.Base.{
  ℕ, zero, suc, ◌+◌, ◌-◌, String, Bool, true, false, none, some, List, [], ◌∷◌, ◌++◌, map, length,
  drop, count_if, ltb, if◌then◌else◌,
}
use tread_agent.Base.Dict.{Dict, lookup, insert}
use tread_agent.Reasoning.Types.{Outcome, success, timeout, error, circuit_open}

pub record Ratio : Type 0 where
  pub num : ℕ
  pub den : ℕ

pub record ProviderHealth : Type 0 where
  pub provider : String
  pub samples : ℕ
  pub successes : ℕ
  pub failures : ℕ
  pub timeouts : ℕ
  pub circuit_opens : ℕ
  pub success_rate : Ratio
  pub timeout_rate : Ratio
  pub avg_latency_ms : Ratio

-- `_Rolling`: two deques with `maxlen=window`, the oldest entry first.
pub record Rolling : Type 0 where
  pub outcomes : List Outcome
  pub latencies : List ℕ

pub record HealthMonitor : Type 0 where
  pub window : ℕ
  pub by_provider : Dict Rolling

abbrev pub empty_rolling : Rolling
empty_rolling = record { outcomes = []; latencies = [] }

unfoldable pub new_monitor : ℕ → HealthMonitor
new_monitor window = record { window = window; by_provider = [] }

-- `append` on a deque with `maxlen`: the oldest entry goes when there are too many.
unfoldable pub deque_append {ℓ} : {A : Type ℓ} → ℕ → A → List A → List A
deque_append maxlen x xs =
    if ltb maxlen (length (xs ++ x ∷ [])) then drop 1 (xs ++ x ∷ []) else xs ++ x ∷ []

unfoldable pub roll : String → HealthMonitor → Rolling
roll provider m = elim (lookup provider m.by_provider) [ some r ↦ r | none ↦ empty_rolling ]

abbrev pub is_success : Outcome → Bool
is_success success = true
is_success _ = false

abbrev pub is_timeout : Outcome → Bool
is_timeout timeout = true
is_timeout _ = false

abbrev pub is_circuit_open : Outcome → Bool
is_circuit_open circuit_open = true
is_circuit_open _ = false

unfoldable pub roll_in : ℕ → Outcome → ℕ → Rolling → Rolling
roll_in window outcome latency_ms r = record {
  outcomes = deque_append window outcome r.outcomes;
  latencies =
      if is_success outcome then deque_append window latency_ms r.latencies else r.latencies;
}

-- `HealthMonitor.record`
unfoldable pub record_outcome : String → Outcome → ℕ → HealthMonitor → HealthMonitor
record_outcome provider outcome latency_ms m = record m {
  by_provider =
      insert provider (roll_in m.window outcome latency_ms (roll provider m)) m.by_provider;
}

abbrev pub sum : List ℕ → ℕ
sum [] = 0
sum (x ∷ xs) = x + sum xs

-- `sum(xs) / len(xs) if xs else 0.0`
abbrev pub mean : List ℕ → Ratio
mean [] = record { num = 0; den = 1 }
mean (x ∷ xs) = record { num = sum (x ∷ xs); den = length (x ∷ xs) }

unfoldable pub snapshot_of : String → Rolling → ProviderHealth
snapshot_of provider r = elim r.outcomes [
  | [] ↦ record {
    provider = provider;
    samples = 0;
    successes = 0;
    failures = 0;
    timeouts = 0;
    circuit_opens = 0;
    success_rate = record { num = 1; den = 1 };
    timeout_rate = record { num = 0; den = 1 };
    avg_latency_ms = record { num = 0; den = 1 };
  }
  | o ∷ os ↦ record {
    provider = provider;
    samples = length (o ∷ os);
    successes = count_if is_success (o ∷ os);
    failures = length (o ∷ os) - count_if is_success (o ∷ os);
    timeouts = count_if is_timeout (o ∷ os);
    circuit_opens = count_if is_circuit_open (o ∷ os);
    success_rate = record { num = count_if is_success (o ∷ os); den = length (o ∷ os) };
    timeout_rate = record { num = count_if is_timeout (o ∷ os); den = length (o ∷ os) };
    avg_latency_ms = mean r.latencies;
  }
]

-- A provider without entries is reported as one with no outcomes.
unfoldable pub snapshot : String → HealthMonitor → ProviderHealth
unfolding snapshot_of roll
snapshot provider m = snapshot_of provider (roll provider m)

unfoldable pub all_snapshots : HealthMonitor → Dict ProviderHealth
unfolding snapshot
all_snapshots m = map (λ e. (e.0, snapshot e.0 m)) m.by_provider
