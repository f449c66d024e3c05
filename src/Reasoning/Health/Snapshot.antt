-- ===== src/Reasoning/Health/Snapshot.antt =====
-- What a snapshot says: its counts fit together, and its rates lie between 0 and 1.
use tread_agent.Base.{ℕ, ◌+◌, ◌≤◌, ◌<◌, ◌≡◌, String, List, [], ◌∷◌, length, count_if, arith}
use tread_agent.Reasoning.Types.{Outcome, success, timeout, error, circuit_open}
use tread_agent.Reasoning.Health.{
  Ratio, ProviderHealth, HealthMonitor, roll, snapshot, snapshot_of, is_success, is_timeout,
  is_circuit_open, mean,
}

-- A fraction between 0 and 1 that can be computed.
abbrev pub IsRate : Ratio → Type 0
IsRate r = (0 < r.den) × (r.num ≤ r.den)

pub record IsConsistent (h : ProviderHealth) : Type 0 where
  pub split : h.successes + h.failures ≡ h.samples
  pub failed : h.timeouts + h.circuit_opens ≤ h.failures
  pub success_rate : IsRate h.success_rate
  pub timeout_rate : IsRate h.timeout_rate
  pub latency : 0 < h.avg_latency_ms.den

counts :
    (os : List Outcome)
    → count_if is_success os + (count_if is_timeout os + count_if is_circuit_open os) ≤ length os
counts [] = omega arith
counts (success ∷ os) = omega (arith, counts os)
counts (timeout ∷ os) = omega (arith, counts os)
counts (error ∷ os) = omega (arith, counts os)
counts (circuit_open ∷ os) = omega (arith, counts os)

mean-den : (xs : List ℕ) → 0 < (mean xs).den
mean-den [] = omega arith
mean-den (x ∷ xs) = omega arith

snapshot_of-IsConsistent :
    (name : String) (os : List Outcome) (ls : List ℕ)
    → IsConsistent (snapshot_of name (record { outcomes = os; latencies = ls }))
unfolding snapshot_of
snapshot_of-IsConsistent name [] ls = omega arith
snapshot_of-IsConsistent name (o ∷ os) ls = ground (arith, counts (o ∷ os), mean-den ls)

-- In every snapshot the successes and failures add up to the samples, timeouts and open circuits
-- are counted among the failures, both rates lie between 0 and 1, and no mean divides by zero.
pub snapshot-IsConsistent : (name : String) (m : HealthMonitor) → IsConsistent (snapshot name m)
unfolding snapshot
snapshot-IsConsistent name m =
    snapshot_of-IsConsistent name (roll name m).outcomes (roll name m).latencies
