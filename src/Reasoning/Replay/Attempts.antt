-- ===== src/Reasoning/Replay/Attempts.antt =====
-- An attempt of src/market_state_engine/reasoning/gateway.py and the record it leaves.
use tread_agent.Base.{◌≡◌, refl, sym, subst, ap, ◌⊎◌, inl, inr, ℕ, String, Option, none, some}
use tread_agent.Reasoning.Types.{
  LlmJob, Outcome, success, timeout, error, Raised, provider_call_error, provider_timeout_error,
  structured_output_error, Result, ok, err, RenderedPrompt, RawProviderResult,
}
use tread_agent.Reasoning.Config.{ProviderCfg, ProvidersConfig, call_params_for}
use tread_agent.Reasoning.Gateway.Fresh.{record_in}
use tread_agent.Reasoning.Gateway.Attempt.{
  World, Tried, succeeded, failed, outcome_of, and_then, call_record, record_of, check_text,
  then_validate, conclude, after_call, try_provider,
}
use tread_agent.Reasoning.Replay.Verified.{Critical, critical}

module _ {E D C : Type 0} (world : World E D C) (config : ProvidersConfig) (run_id : String)
    (job : LlmJob) (prompt : RenderedPrompt) where
  -- The critical part of the record of an attempt with this response and outcome.
  abbrev pub criticals_of : ℕ → ProviderCfg → Option D → Outcome → Critical
  criticals_of i p response outcome = record {
    run_id = run_id;
    llm_job = job;
    attempt_index = i;
    provider = p.name;
    model_id = (call_params_for config p job).model_id;
    prompt_version = prompt.version;
    prompt_hash = prompt.prompt_hash;
    response_hash = and_then response (λ d. some (world.content_hash d));
    outcome = outcome;
  }

  -- What an attempt and its record have: the response has passed the validator, and a failure is a
  -- timeout or an error.
  abbrev pub Tells : ℕ → ProviderCfg → Tried D C → Type 0
  Tells i p (succeeded d r) =
      (critical r ≡ criticals_of i p (some d) success)
      × (r.response ≡ some d)
      × (world.validate job d ≡ ok tt)
  Tells i p (failed r x) =
      (critical r ≡ criticals_of i p none timeout) ⊎ (critical r ≡ criticals_of i p none error)

  pub criticals-Tells :
      (i : ℕ) (p : ProviderCfg) (t : Tried D C)
      → Tells i p t
      → (same : Option D × Outcome) × (critical (record_in t) ≡ criticals_of i p same.0 same.1)
  criticals-Tells i p (succeeded d r) h = ((some d, success), h.0)
  criticals-Tells i p (failed r x) (inl h) = ((none, timeout), h)
  criticals-Tells i p (failed r x) (inr h) = ((none, error), h)

  pub provider-Tells :
      (i : ℕ) (p : ProviderCfg) (t : Tried D C) → Tells i p t → (record_in t).provider ≡ p.name
  provider-Tells i p t h = ap (λ (x : Critical). x.provider) (criticals-Tells i p t h).1

  failed-Tells :
      (i : ℕ) (p : ProviderCfg) (x : Raised) (l n : ℕ) (t : String)
      → Tells i p
          (failed (record_of world config run_id job prompt i p none (outcome_of x) l n t) x)
  unfolding call_record
  failed-Tells i p (provider_call_error _) l n t = inr refl
  failed-Tells i p (provider_timeout_error _ _ _) l n t = inl refl
  failed-Tells i p (structured_output_error _) l n t = inr refl

  passed :
      (v : Result (Unit {0})) (c d : D)
      → (elim v [ ok _ ↦ ok c | err x ↦ err x ]) ≡ ok d
      → (c ≡ d) × (v ≡ ok tt)
  passed (ok _) c d h = (ok-injective h, refl)
    where
      ok-injective : {a b : D} → ok a ≡ ok b → a ≡ b
      ok-injective q = cc
  passed (err x) c d h = absurd cc

  pub validate-ok : (c : D) → world.validate job c ≡ ok tt → then_validate world job (ok c) ≡ ok c
  validate-ok c h = subst (λ v. (elim v [ ok _ ↦ ok c | err x ↦ err x ]) ≡ ok c) (sym h) refl

  then_validate-ok :
      (c : Result D) (d : D)
      → then_validate world job c ≡ ok d
      → (c ≡ ok d) × (world.validate job d ≡ ok tt)
  then_validate-ok (err x) d h = absurd cc
  then_validate-ok (ok c) d h =
      let (same, valid) = passed (world.validate job c) c d h in
      (ap ok same, subst (λ k. world.validate job k ≡ ok tt) same valid)

  conclude-Tells :
      (i : ℕ) (p : ProviderCfg) (raw : RawProviderResult) (elapsed retries : ℕ) (c : Result D)
      (e : E)
      → check_text world job raw.text ≡ c
      → Tells i p (conclude world config run_id job prompt i p raw elapsed retries c e).0
  unfolding conclude check_text
  conclude-Tells i p raw elapsed retries (ok d) e h = (refl, refl, (then_validate-ok _ d h).1)
  conclude-Tells i p raw elapsed retries (err x) e h = failed-Tells i p x elapsed 0 (world.wall e).0

  after_call-Tells :
      (i : ℕ) (p : ProviderCfg) (r : Result ((RawProviderResult × ℕ) × ℕ) × E)
      → Tells i p (after_call world config run_id job prompt i p r).0
  unfolding after_call
  after_call-Tells i p (ok ((raw, elapsed), retries), e) =
      conclude-Tells i p raw elapsed retries _ e refl
  after_call-Tells i p (err x, e) = failed-Tells i p x 0 0 (world.wall e).0

  pub try_provider-Tells :
      (i : ℕ) (p : ProviderCfg) (e : E)
      → Tells i p (try_provider world config run_id job prompt i p e).0
  unfolding try_provider
  try_provider-Tells i p e = after_call-Tells i p _
