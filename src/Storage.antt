-- ===== src/Storage.antt =====
-- The reads of src/market_state_engine/persistence/repositories.py, and its tables of news, of
-- market-cap samples and of last-good snapshots.
pub mod Reads
pub mod Keyed
mod Samples
