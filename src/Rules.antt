-- ===== src/Rules.antt =====
-- src/market_state_engine/rules: the rulebook, its gate, the matching of rules and their conflicts.
pub mod Models
pub mod Condition
pub mod Matcher
pub mod Conflict
pub mod Loader
pub mod Activations
pub mod Engine
mod Samples
