-- ===== src/Reasoning/Gateway/Attempt.antt =====
-- src/market_state_engine/reasoning/gateway.py: `_try_provider`, `_call` and `_record`, and what
-- the gateway is given: clocks, adapters, the validator, the hash and the price table.
use tread_agent.Base.{ℕ, String, Bool, Option, none, some, if◌then◌else◌}
use tread_agent.Reasoning.Types.{
  LlmJob, Outcome, success, timeout, error, Raised, provider_call_error, provider_timeout_error,
  Result, ok, err, CallParams, RenderedPrompt, RawProviderResult,
}
use tread_agent.Reasoning.Config.{ProviderCfg, ProvidersConfig, call_params_for}
use tread_agent.Reasoning.Retry.{RetryPolicy, run_retrying}
use tread_agent.Reasoning.Timeout.{run_timed}
use tread_agent.Base.{or_else}

-- `E` is the state of the world; `D` is parsed JSON and `C` a cost. `bound` says whether there is an
-- adapter of a name, `complete` is its call, and `estimate` is absent without a price table.
-- `sleep` is given milliseconds.
pub record World (E D C : Type 0) : Type 0 where
  pub read_ms : E → ℕ × E
  pub read_s : E → ℕ × E
  pub wall : E → String × E
  pub sleep : ℕ → E → E
  pub bound : String → Bool
  pub complete : String → RenderedPrompt → CallParams → E → Result RawProviderResult × E
  pub parse_json : String → Result D
  pub validate : LlmJob → D → Result (Unit {0})
  -- `content_hash` of core/hashing.py, of a value whose text can be encoded: a text with a lone
  -- surrogate, which raises, is left out.
  pub content_hash : D → String
  pub estimate : Option (String → Option ℕ → Option ℕ → Option C)
  pub digest8 : String → ℕ

-- models.CallRecord
pub record CallRecord (D C : Type 0) : Type 0 where
  pub run_id : String
  pub llm_job : LlmJob
  pub attempt_index : ℕ
  pub provider : String
  pub model_id : String
  pub prompt_version : String
  pub prompt_hash : String
  pub rendered_prompt : String
  pub response : Option D
  pub response_hash : Option String
  pub latency_ms : ℕ
  pub input_tokens : Option ℕ
  pub output_tokens : Option ℕ
  pub estimated_cost : Option C
  pub retries : ℕ
  pub finish_reason : Option String
  pub outcome : Outcome
  pub created_at : String

-- The tuple that `_try_provider` returns, by its flag.
pub data Tried (D C : Type 0) : Type 0 where
  succeeded : D → CallRecord D C → Tried D C
  failed : CallRecord D C → Raised → Tried D C

-- `except ProviderTimeoutError`, `except (ProviderCallError, StructuredOutputError)`
abbrev pub outcome_of : Raised → Outcome
outcome_of (provider_timeout_error _ _ _) = timeout
outcome_of _ = error

-- `x.f if x is not None else None`, where `f` may be absent itself
abbrev pub and_then {ℓ κ} : {A : Type ℓ} {B : Type κ} → Option A → (A → Option B) → Option B
and_then none f = none
and_then (some a) f = f a

module _ {E D C : Type 0} (world : World E D C) where
  unfoldable pub cost_of : String → Option (RawProviderResult × D) → Option C
  cost_of model_id s =
      and_then world.estimate
        λ estimate. and_then s λ p. estimate model_id p.0.input_tokens p.0.output_tokens

  -- `_record`, with the time that it reads.
  unfoldable pub call_record :
      String
      → LlmJob
      → ℕ
      → ProviderCfg
      → CallParams
      → RenderedPrompt
      → Option (RawProviderResult × D)
      → Outcome
      → ℕ
      → ℕ
      → String
      → CallRecord D C
  unfolding cost_of
  call_record run_id job i p params prompt s outcome latency_ms retries stamp = record {
    run_id = run_id;
    llm_job = job;
    attempt_index = i;
    provider = p.name;
    model_id = params.model_id;
    prompt_version = prompt.version;
    prompt_hash = prompt.prompt_hash;
    rendered_prompt = prompt.text;
    response = and_then s (λ x. some x.1);
    response_hash = and_then s (λ x. some (world.content_hash x.1));
    latency_ms = latency_ms;
    input_tokens = and_then s (λ x. x.0.input_tokens);
    output_tokens = and_then s (λ x. x.0.output_tokens);
    estimated_cost = cost_of params.model_id s;
    retries = retries;
    finish_reason = and_then s (λ x. x.0.finish_reason);
    outcome = outcome;
    created_at = stamp;
  }

  -- `_call`
  unfoldable pub call : ProviderCfg → RenderedPrompt → CallParams → E → Result RawProviderResult × E
  call p prompt params e =
      if world.bound p.name
      then world.complete p.name prompt params e
      else (err (provider_call_error p.name), e)

  -- `parse_json` and then `validate`
  abbrev pub then_validate : LlmJob → Result D → Result D
  then_validate job (err x) = err x
  then_validate job (ok d) = elim (world.validate job d) [ ok _ ↦ ok d | err x ↦ err x ]

  unfoldable pub check_text : LlmJob → String → Result D
  check_text job text = then_validate job (world.parse_json text)

  module _ (config : ProvidersConfig) (run_id : String) (job : LlmJob)
      (prompt : RenderedPrompt) where
    unfoldable pub policy_of : ProviderCfg → RetryPolicy
    policy_of p = record {
      retries = or_else p.retries config.defaults.retries;
      backoff = config.defaults.backoff;
    }

    -- The call with its deadline, retried. A result comes with the elapsed milliseconds of the
    -- attempt that gave it, and the number of retries.
    unfoldable pub call_retrying : ProviderCfg → E → Result ((RawProviderResult × ℕ) × ℕ) × E
    unfolding policy_of
    call_retrying p =
        let params = call_params_for config p job in
        run_retrying (policy_of p)
          (run_timed world.read_ms params.timeout_seconds p.name (call p prompt params)) world.sleep

    abbrev pub record_of :
        ℕ → ProviderCfg → Option (RawProviderResult × D) → Outcome → ℕ → ℕ → String → CallRecord D C
    record_of i p = call_record run_id job i p (call_params_for config p job) prompt

    -- After the result has been checked: the record reads the clock.
    unfoldable pub conclude :
        ℕ → ProviderCfg → RawProviderResult → ℕ → ℕ → Result D → E → Tried D C × E
    unfolding call_record
    conclude i p raw elapsed retries (ok d) e =
        let (stamp, e') = world.wall e in
        (succeeded d (record_of i p (some (raw, d)) success elapsed retries stamp), e')
    conclude i p raw elapsed retries (err x) e =
        let (stamp, e') = world.wall e in
        (failed (record_of i p none (outcome_of x) elapsed 0 stamp) x, e')

    -- What the retried call raises leaves the elapsed time at 0.
    unfoldable pub after_call :
        ℕ → ProviderCfg → Result ((RawProviderResult × ℕ) × ℕ) × E → Tried D C × E
    unfolding conclude check_text
    after_call i p (ok ((raw, elapsed), retries), e) =
        conclude i p raw elapsed retries (check_text job raw.text) e
    after_call i p (err x, e) =
        let (stamp, e') = world.wall e in
        (failed (record_of i p none (outcome_of x) 0 0 stamp) x, e')

    -- `_try_provider`
    unfoldable pub try_provider : ℕ → ProviderCfg → E → Tried D C × E
    unfolding call_retrying after_call
    try_provider i p e = after_call i p (call_retrying p e)
