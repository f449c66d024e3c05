-- ===== src/Reasoning/Config.antt =====
-- src/market_state_engine/reasoning: provider_config.py and registry.py. Loading starts from the
-- fields, with numbers that are not negative: a YAML file and the types of its values are left out.
pub mod Chain
pub mod Loaded
use tread_agent.Base.{
  ℕ, zero, String, Bool, true, false, not, ◌&&◌, ◌||◌, Option, none, some, List, [], ◌∷◌, map,
  select, any, or_else, ltb, leb, ◌==◌, if◌then◌else◌, str_eq,
}
use tread_agent.Base.Order.{str_le}
use tread_agent.Base.Sort.{sort}
use tread_agent.Reasoning.Types.{LlmJob, sentiment, synthesis, CallParams}
use tread_agent.Reasoning.Breaker.{CircuitBreakerCfg}

pub data ConfigError : Type 0 where
  bad_strategy must_degrade out_of_range no_providers names_not_unique : ConfigError

pub record RoutingCfg : Type 0 where
  pub strategy : String
  pub degrade_after_all_fail : Bool

pub record BackoffCfg : Type 0 where
  pub type : String
  pub base_ms : ℕ
  pub max_ms : ℕ

pub record DefaultsCfg : Type 0 where
  pub temperature : ℕ
  pub max_tokens : ℕ
  pub timeout_seconds : ℕ
  pub retries : ℕ
  pub backoff : BackoffCfg
  pub circuit_breaker : CircuitBreakerCfg

pub record ProviderModels : Type 0 where
  pub sentiment_model : String
  pub synthesis_model : String

pub record ProviderCfg : Type 0 where
  pub name : String
  pub enabled : Bool
  pub priority : ℕ
  pub weight : ℕ
  pub models : ProviderModels
  pub temperature : Option ℕ
  pub max_tokens : Option ℕ
  pub timeout_seconds : Option ℕ
  pub retries : Option ℕ

pub record ProvidersConfig : Type 0 where
  pub version : String
  pub routing : RoutingCfg
  pub defaults : DefaultsCfg
  pub providers : List ProviderCfg

-- `RoutingCfg._validate`
unfoldable pub validate_routing : RoutingCfg → Option ConfigError
validate_routing r =
    if not (any (str_eq r.strategy) ("priority" ∷ "weighted" ∷ []))
    then some bad_strategy
    else if not r.degrade_after_all_fail
    then some must_degrade
    else none

abbrev pub names : List ProviderCfg → List String
names = map (λ p. p.name)

-- `len(names) == len(set(names))`: no name occurs again.
unfoldable pub all_distinct : List String → Bool
all_distinct [] = true
all_distinct (n ∷ ns) = not (any (str_eq n) ns) && all_distinct ns

-- `ProvidersConfig._validate`, on the field `providers`
unfoldable pub validate_providers : List ProviderCfg → Option ConfigError
unfolding all_distinct
validate_providers [] = some no_providers
validate_providers (p ∷ ps) = if all_distinct (names (p ∷ ps)) then none else some names_not_unique

-- `Field(ge=1)`, on a field that may be absent.
abbrev pub positive : Option ℕ → Bool
positive none = true
positive (some n) = leb 1 n

-- The ranges of `CircuitBreakerCfg` and `DefaultsCfg`.
unfoldable pub defaults_in_range : DefaultsCfg → Bool
defaults_in_range d =
    leb 1 d.max_tokens
    && leb 1 d.timeout_seconds
    && leb 1 d.circuit_breaker.failure_threshold
    && leb 1 d.circuit_breaker.window_seconds
    && leb 1 d.circuit_breaker.half_open_after_seconds

-- The ranges of `ProviderCfg`.
unfoldable pub provider_in_range : ProviderCfg → Bool
provider_in_range p = leb 1 p.priority && positive p.max_tokens && positive p.timeout_seconds

abbrev first_error : Option ConfigError → Option ConfigError → Option ConfigError
first_error (some x) _ = some x
first_error none o = o

-- The first error of `ProviderRegistry.from_mapping`: the fields are validated in their order, and then
-- the configuration.
unfoldable pub validate_config : ProvidersConfig → Option ConfigError
unfolding validate_routing defaults_in_range provider_in_range validate_providers
validate_config c = first_error (validate_routing c.routing) (
    if not (defaults_in_range c.defaults) || any (λ p. not (provider_in_range p)) c.providers
    then some out_of_range
    else validate_providers c.providers)

-- A job is one of the two, so the branch for an unknown job is never taken.
unfoldable pub model_for : ProviderCfg → LlmJob → String
model_for p sentiment = p.models.sentiment_model
model_for p synthesis = p.models.synthesis_model

-- The sort key `(priority, name)`.
abbrev pub provider_le : ProviderCfg → ProviderCfg → Bool
provider_le p q =
    if ltb p.priority q.priority
    then true
    else if p.priority == q.priority
    then str_le p.name q.name
    else false

unfoldable pub enabled_providers : ProvidersConfig → List ProviderCfg
enabled_providers c = sort provider_le (select (λ p. p.enabled) c.providers)

-- `ProviderRegistry.get`
unfoldable pub get : String → List ProviderCfg → Option ProviderCfg
get name [] = none
get name (p ∷ ps) = if str_eq p.name name then some p else get name ps

-- `x or d`: a zero counts as absent.
abbrev pub truthy_or : Option ℕ → ℕ → ℕ
truthy_or none d = d
truthy_or (some n) d = if n == 0 then d else n

unfoldable pub call_params_for : ProvidersConfig → ProviderCfg → LlmJob → CallParams
unfolding model_for
call_params_for c p job = record {
  model_id = model_for p job;
  max_tokens = truthy_or p.max_tokens c.defaults.max_tokens;
  temperature = or_else p.temperature c.defaults.temperature;
  timeout_seconds = truthy_or p.timeout_seconds c.defaults.timeout_seconds;
}
