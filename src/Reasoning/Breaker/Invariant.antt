-- ===== src/Reasoning/Breaker/Invariant.antt =====
-- What holds of a breaker after any sequence of calls.
use tread_agent.Base.{
  ℕ, ◌≤◌, ◌<◌, ◌≡◌, Bool, true, false, not, List, [], ◌∷◌, length, is_some, arith,
}
use tread_agent.Reasoning.Breaker.{
  CircuitBreakerCfg, CircuitBreaker, BreakerState, closed, new_breaker, maybe_half_open,
  note_failure, record_failure, record_success, trip, Call, polled, succeeded, failed, step, run,
}

abbrev pub is_closed : BreakerState → Bool
is_closed closed = true
is_closed _ = false

-- Fewer failures are kept than would trip, and exactly a breaker that is not closed has a time at
-- which it opened.
pub record IsValid (b : CircuitBreaker) : Type 0 where
  pub below : length b.failures < b.failure_threshold
  pub timed : is_some b.opened_at ≡ not (is_closed b.state)

pub new_breaker-IsValid :
    (c : CircuitBreakerCfg) → 1 ≤ c.failure_threshold → IsValid (new_breaker c)
unfolding new_breaker
new_breaker-IsValid c h = ground arith

pub maybe_half_open-IsValid :
    (now : ℕ) (b : CircuitBreaker) → IsValid b → IsValid (maybe_half_open now b)
unfolding maybe_half_open
maybe_half_open-IsValid now b v = ground arith

note_failure-IsValid : (now : ℕ) (b : CircuitBreaker) → IsValid b → IsValid (note_failure now b)
unfolding note_failure
note_failure-IsValid now b v = ground arith

pub record_failure-IsValid :
    (now later : ℕ) (b : CircuitBreaker) → IsValid b → IsValid (record_failure now later b)
unfolding record_failure trip
record_failure-IsValid now later b v =
    ground
      (arith, maybe_half_open-IsValid later b v, note_failure-IsValid now (maybe_half_open later b))

pub record_success-IsValid : (b : CircuitBreaker) → IsValid b → IsValid (record_success b)
unfolding record_success
record_success-IsValid b v = ground arith

-- Every method keeps the invariant.
pub step-IsValid : (b : CircuitBreaker) (c : Call) → IsValid b → IsValid (step b c)
unfolding step
step-IsValid b (polled now) v = maybe_half_open-IsValid now b v
step-IsValid b succeeded v = record_success-IsValid b v
step-IsValid b (failed now later) v = record_failure-IsValid now later b v

pub run-IsValid : (b : CircuitBreaker) (cs : List Call) → IsValid b → IsValid (run b cs)
unfolding run
run-IsValid b [] v = v
run-IsValid b (c ∷ cs) v = run-IsValid (step b c) cs (step-IsValid b c v)

-- After any calls on a new breaker whose threshold is at least 1, fewer failures are kept than the
-- threshold, and it has an opening time exactly when it is not closed.
pub run-new_breaker-IsValid :
    (c : CircuitBreakerCfg) (cs : List Call)
    → 1 ≤ c.failure_threshold
    → IsValid (run (new_breaker c) cs)
run-new_breaker-IsValid c cs h = run-IsValid (new_breaker c) cs (new_breaker-IsValid c h)
