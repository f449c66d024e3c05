-- ===== src/Reasoning/Gateway.antt =====
-- src/market_state_engine/reasoning/gateway.py: the failover chain over the providers of a run.
pub mod Attempt
pub mod Trace
pub mod Bookkeeping
pub mod Timely
pub mod Fresh
pub mod Kept
pub mod Alone
pub mod Rounds
pub mod Serving
use tread_agent.Base.{
  ℕ, zero, suc, ◌+◌, String, Bool, true, false, ◌&&◌, Option, none, some, List, [], ◌∷◌, ◌++◌,
  is_some, if◌then◌else◌,
}
use tread_agent.Reasoning.Types.{
  LlmJob, Outcome, success, timeout, error, circuit_open, Raised, CallParams, RenderedPrompt,
}
use tread_agent.Reasoning.Breaker.{
  CircuitBreaker, CircuitBreakerRegistry, is_opened, allows, record_success, record_failure,
  for_provider, put_breaker, new_breaker,
}
use tread_agent.Reasoning.Health.{HealthMonitor, record_outcome, new_monitor}
use tread_agent.Reasoning.Config.{ProviderCfg, ProvidersConfig, call_params_for, enabled_providers}
use tread_agent.Reasoning.Router.{order, seed_fraction}
use Attempt.{World, CallRecord, Tried, succeeded, failed, call_record, try_provider}

-- Why a chain, or a provider of it, gave nothing. The source has texts here.
pub data Reason : Type 0 where
  no_enabled_providers all_exhausted : Reason
  circuit_is_open : String → Reason
  raised : Raised → Reason

pub record DegradedMarker : Type 0 where
  pub job : LlmJob
  pub reason : Reason
  pub last_provider : String
  pub last_model : String

pub data Answer (D : Type 0) : Type 0 where
  answered : D → Answer D
  degraded : DegradedMarker → Answer D

-- What one round of the loop comes to.
pub data Visit (D : Type 0) : Type 0 where
  hit : D → Visit D
  miss : Reason → Visit D

-- The parts of `LLMGateway` that change. `records` is what the recorder was given, oldest first;
-- `recording` says whether there is one.
pub record Gateway (D C : Type 0) : Type 0 where
  pub breakers : CircuitBreakerRegistry
  pub health : HealthMonitor
  pub recording : Bool
  pub records : List (CallRecord D C)

-- The marker for an empty chain.
abbrev pub no_chain : LlmJob → DegradedMarker
no_chain job = record {
  job = job;
  reason = no_enabled_providers;
  last_provider = "none";
  last_model = "none";
}

-- `chain[-1]`
abbrev pub last_of : ProviderCfg → List ProviderCfg → ProviderCfg
last_of p [] = p
last_of p (q ∷ qs) = last_of q qs

module _ {E D C : Type 0} (world : World E D C) where
  unfoldable pub new_gateway : ProvidersConfig → Bool → Gateway D C
  unfolding new_monitor
  new_gateway config recording = record {
    breakers = record { cfg = config.defaults.circuit_breaker; breakers = [] };
    health = new_monitor 50;
    recording = recording;
    records = [];
  }

  unfoldable pub emit : CallRecord D C → Gateway D C → Gateway D C
  emit r g = if g.recording then record g { records = g.records ++ r ∷ [] } else g

  unfoldable pub note_health : String → Outcome → ℕ → Gateway D C → Gateway D C
  note_health name outcome latency_ms g = record g {
    health = record_outcome name outcome latency_ms g.health;
  }

  unfoldable pub set_breaker : String → CircuitBreaker → Gateway D C → Gateway D C
  set_breaker name b g = record g { breakers = put_breaker name b g.breakers }

  -- The reading that `_maybe_half_open` makes: only of an open breaker.
  unfoldable pub look : CircuitBreaker → E → ℕ × E
  look b e = if is_opened b.state && is_some b.opened_at then world.read_s e else (0, e)

  -- `record_failure` reads the clock, and then looks at `state`.
  unfoldable pub fail_breaker : CircuitBreaker → E → CircuitBreaker × E
  unfolding look
  fail_breaker b e =
      let (now, e') = world.read_s e in
      let (later, e'') = look b e' in (record_failure now later b, e'')

  module _ (config : ProvidersConfig) (run_id : String) (job : LlmJob)
      (prompt : RenderedPrompt) where
    abbrev pub params_of : ProviderCfg → CallParams
    params_of p = call_params_for config p job

    -- The branch `not breaker.allows()`.
    unfoldable pub skip : ℕ → ProviderCfg → Gateway D C → E → Visit D × Gateway D C × E
    unfolding emit note_health
    skip i p g e =
        let (stamp, e') = world.wall e in
        let r = call_record world run_id job i p (params_of p) prompt none circuit_open 0 0 stamp in
        (miss (circuit_is_open p.name), note_health p.name circuit_open 0 (emit r g), e')

    -- What follows `_try_provider`: the record, the health monitor and the breaker.
    unfoldable pub settle :
        ProviderCfg → CircuitBreaker → Gateway D C → Tried D C × E → Visit D × Gateway D C × E
    unfolding emit note_health set_breaker fail_breaker record_success
    settle p b g (succeeded d r, e) =
        let g' = note_health p.name r.outcome r.latency_ms (emit r g) in
        (hit d, set_breaker p.name (record_success b) g', e)
    settle p b g (failed r x, e) =
        let g' = note_health p.name r.outcome r.latency_ms (emit r g) in
        let (b', e') = fail_breaker b e in (miss (raised x), set_breaker p.name b' g', e')

    -- The test of the breaker, with its answer and what it makes of the breaker.
    unfoldable pub decide :
        ℕ → ProviderCfg → Gateway D C → E → Bool × CircuitBreaker → Visit D × Gateway D C × E
    unfolding skip settle set_breaker
    decide i p g e (true, b) =
        settle p b (set_breaker p.name b g) (try_provider world config run_id job prompt i p e)
    decide i p g e (false, b) = skip i p (set_breaker p.name b g) e

    -- One round of the loop, for the provider at position `i`.
    unfoldable pub visit : ℕ → ProviderCfg → Gateway D C → E → Visit D × Gateway D C × E
    unfolding for_provider look allows decide
    visit i p g e =
        let (b, breakers) = for_provider p.name g.breakers in
        let (now, e') = look b e in decide i p (record g { breakers = breakers }) e' (allows now b)

    abbrev pub marker : Reason → ProviderCfg → DegradedMarker
    marker reason p = record {
      job = job;
      reason = reason;
      last_provider = p.name;
      last_model = (params_of p).model_id;
    }

    -- The loop from position `i`, and what follows it, where `last` is the marker so far.
    unfoldable pub walk :
        ℕ → List ProviderCfg → DegradedMarker → Gateway D C → E → Answer D × Gateway D C × E
    walk i [] last g e = (degraded last, g, e)
    walk i (p ∷ ps) last g e =
        let (v, g', e') = visit i p g e in
        elim v [
          | hit d ↦ (answered d, g', e')
          | miss reason ↦ walk (suc i) ps (marker reason p) g' e'
        ]

    -- The failover chain of this run.
    unfoldable pub chain_of : List ProviderCfg
    unfolding order seed_fraction
    chain_of =
        order config.routing.strategy (seed_fraction world.digest8 run_id)
          (enabled_providers config)

    unfoldable pub run_chain : List ProviderCfg → Gateway D C → E → Answer D × Gateway D C × E
    unfolding walk
    run_chain [] g e = (degraded (no_chain job), g, e)
    run_chain (p ∷ ps) g e = walk 0 (p ∷ ps) (marker all_exhausted (last_of p ps)) g e

    -- `LLMGateway._run`, on the prompt that the builder made of the request.
    unfoldable pub run : Gateway D C → E → Answer D × Gateway D C × E
    unfolding run_chain chain_of
    run g e = run_chain chain_of g e
