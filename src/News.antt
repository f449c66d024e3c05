-- ===== src/News.antt =====
-- src/market_state_engine/news: which assets a news item is relevant for, and the digest of the news.
pub mod Patterns
pub mod Direct
pub mod Topics
pub mod Relevance
pub mod Weigher
mod Samples
