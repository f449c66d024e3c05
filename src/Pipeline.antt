-- ===== src/Pipeline.antt =====
-- src/market_state_engine/pipeline: the execution of a run and its persistence.
pub mod Store
pub mod Runner
pub mod Scheduler
pub mod Pending
pub mod Trigger
pub mod Samples
