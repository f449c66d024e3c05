-- ===== src/Reasoning.antt =====
-- The reasoning layer, src/market_state_engine/reasoning: providers as configuration, the
-- reliability machinery (breaker, health, retry, timeout, router) and the gateway over them.
pub mod Breaker
pub mod Health
pub mod Types
pub mod Config
pub mod Retry
pub mod Timeout
pub mod Router
pub mod Gateway
pub mod Replay
mod Samples
