-- ===== src/Reasoning/Breaker.antt =====
-- src/market_state_engine/reasoning/reliability/circuit_breaker.py: one breaker per provider.
-- A reading of the injected clock is an argument of the operation that reads it, a whole number of
-- its ticks. `record_failure` reads twice: once itself, and once through the property `state`.
pub mod Invariant
pub mod Window
pub mod Cooldown
pub mod Decided
use tread_agent.Base.{
  ℕ, ◌+◌, ◌-◌, String, ◌≡◌, Bool, true, false, not, ◌&&◌, Option, none, some, List, [], ◌∷◌, ◌++◌,
  length, ltb, leb, if◌then◌else◌,
}
use tread_agent.Base.Dict.{Dict, lookup, insert}

-- provider_config.CircuitBreakerCfg
pub record CircuitBreakerCfg : Type 0 where
  pub failure_threshold : ℕ
  pub window_seconds : ℕ
  pub half_open_after_seconds : ℕ

pub data BreakerState : Type 0 where
  closed opened half_open : BreakerState

-- `_failures` holds the oldest failure first.
pub record CircuitBreaker : Type 0 where
  pub cfg : CircuitBreakerCfg
  pub open cfg use *
  pub failures : List ℕ
  pub state : BreakerState
  pub opened_at : Option ℕ

abbrev pub is_opened : BreakerState → Bool
is_opened opened = true
is_opened _ = false

abbrev pub is_half_open : BreakerState → Bool
is_half_open half_open = true
is_half_open _ = false

unfoldable pub new_breaker : CircuitBreakerCfg → CircuitBreaker
new_breaker cfg = record { cfg = cfg; failures = []; state = closed; opened_at = none }

-- `self._opened_at is not None and now - self._opened_at >= half_open_after_seconds`
abbrev pub cooled : ℕ → ℕ → Option ℕ → Bool
cooled now wait none = false
cooled now wait (some t) = leb (t + wait) now

-- Also the property `state`, which is the field `state` of the result.
unfoldable pub maybe_half_open : ℕ → CircuitBreaker → CircuitBreaker
maybe_half_open now b =
    if is_opened b.state && cooled now b.half_open_after_seconds b.opened_at
    then record b { state = half_open }
    else b

unfoldable pub allows : ℕ → CircuitBreaker → Bool × CircuitBreaker
unfolding maybe_half_open
allows now b = let b' = maybe_half_open now b in (not (is_opened b'.state), b')

-- `horizon` is `now - window`; where that is negative it is 0 here, and no reading lies below either.
unfoldable pub prune : ℕ → List ℕ → List ℕ
prune horizon [] = []
prune horizon (f ∷ fs) = if ltb f horizon then prune horizon fs else f ∷ fs

unfoldable pub trip : ℕ → CircuitBreaker → CircuitBreaker
trip now b = record b { state = opened; opened_at = some now; failures = [] }

unfoldable pub record_success : CircuitBreaker → CircuitBreaker
record_success b = record b { failures = []; state = closed; opened_at = none }

abbrev pub recent : ℕ → CircuitBreaker → List ℕ
recent now b = prune (now - b.window_seconds) (b.failures ++ now ∷ [])

-- The failure is noted and old ones are pruned; at the threshold the breaker trips.
unfoldable pub note_failure : ℕ → CircuitBreaker → CircuitBreaker
unfolding trip
note_failure now b =
    if leb b.failure_threshold (length (recent now b))
    then trip now (record b { failures = recent now b })
    else record b { failures = recent now b }

-- `now` is the method's own reading, `later` the one of `self.state`.
unfoldable pub record_failure : ℕ → ℕ → CircuitBreaker → CircuitBreaker
unfolding maybe_half_open note_failure
record_failure now later b =
    let b' = maybe_half_open later b in
    if is_half_open b'.state then trip now b' else note_failure now b'

-- CircuitBreakerRegistry: breakers are made on first use and shared by name.
pub record CircuitBreakerRegistry : Type 0 where
  pub cfg : CircuitBreakerCfg
  pub breakers : Dict CircuitBreaker

-- The breaker of a name, and the registry that now holds it.
unfoldable pub for_provider :
    String → CircuitBreakerRegistry → CircuitBreaker × CircuitBreakerRegistry
unfolding new_breaker
for_provider name reg = elim (lookup name reg.breakers) [
  | some b ↦ (b, reg)
  | none ↦ let b = new_breaker reg.cfg in (b, record reg { breakers = insert name b reg.breakers })
]

-- What a method call on a breaker does to the registry that shares it.
unfoldable pub put_breaker :
    String → CircuitBreaker → CircuitBreakerRegistry → CircuitBreakerRegistry
put_breaker name b reg = record reg { breakers = insert name b reg.breakers }

-- The method calls that a client makes, with the readings of the clock that they see.
pub data Call : Type 0 where
  polled : ℕ → Call
  succeeded : Call
  failed : ℕ → ℕ → Call

unfoldable pub step : CircuitBreaker → Call → CircuitBreaker
unfolding maybe_half_open record_success record_failure
step b (polled now) = maybe_half_open now b
step b succeeded = record_success b
step b (failed now later) = record_failure now later b

unfoldable pub run : CircuitBreaker → List Call → CircuitBreaker
run b [] = b
run b (c ∷ cs) = run (step b c) cs
