-- ===== src/Market.antt =====
-- The document of a run (core), the scores and the regime (scoring), the document's assembly
-- (assembly), its checks (guardrails) and the stages of the orchestrator (pipeline/orchestrator.py).
pub mod Numbers
pub mod Models
pub mod Ranges
pub mod Scoring
pub mod Features
pub mod Guardrails
pub mod Fields
pub mod Assembly
pub mod Messages
pub mod Answers
pub mod Orchestrator
pub mod Fixed
mod Samples
