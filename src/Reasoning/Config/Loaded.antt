-- ===== src/Reasoning/Config/Loaded.antt =====
-- What holds of a configuration that provider_config.py of src/market_state_engine/reasoning accepts.
use tread_agent.Base.{◌≤◌, ◌≡◌, none, arith}
use tread_agent.Reasoning.Config.{
  ProvidersConfig, defaults_in_range, validate_config, validate_providers,
}

-- The provider names of an accepted configuration are distinct, and its breakers need at least one
-- failure to trip.
pub validate_config-Usable :
    (c : ProvidersConfig)
    → validate_config c ≡ none
    → (validate_providers c.providers ≡ none) × (1 ≤ c.defaults.circuit_breaker.failure_threshold)
unfolding validate_config defaults_in_range
validate_config-Usable c h = ground (arith, h)
