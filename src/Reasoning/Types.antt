-- ===== src/Reasoning/Types.antt =====
-- src/market_state_engine/reasoning: errors.py, outcome.py, types.py and the call outcomes. An
-- exception is a value; its text is left as the data that the source formats.
use tread_agent.Base.{ℕ, String, Bool, true, false, Option}

-- core/enums.LlmJob
pub data LlmJob : Type 0 where
  sentiment synthesis : LlmJob

-- outcome.Outcome
pub data Outcome : Type 0 where
  success timeout error circuit_open : Outcome

-- The exceptions of one attempt. A timeout carries the deadline and the elapsed milliseconds.
pub data Raised : Type 0 where
  provider_call_error : String → Raised
  provider_timeout_error : String → ℕ → ℕ → Raised
  structured_output_error : String → Raised

pub data Result {ℓ} (A : Type ℓ) : Type ℓ where
  ok : A → Result A
  err : Raised → Result A

-- `except StructuredOutputError: raise`, `except ProviderCallError` (which a timeout is too)
abbrev pub is_retryable : Raised → Bool
is_retryable (structured_output_error _) = false
is_retryable _ = true

pub record RenderedPrompt : Type 0 where
  pub text : String
  pub version : String
  pub prompt_hash : String

-- `temperature` is only passed on: a number of fixed decimal places, as an integer.
pub record CallParams : Type 0 where
  pub model_id : String
  pub max_tokens : ℕ
  pub temperature : ℕ
  pub timeout_seconds : ℕ

pub record RawProviderResult : Type 0 where
  pub text : String
  pub input_tokens : Option ℕ
  pub output_tokens : Option ℕ
  pub finish_reason : Option String
