-- ===== src/Reasoning/Gateway/Timely.antt =====
-- Deadlines and retries in the call records of src/market_state_engine/reasoning/gateway.py.
use tread_agent.Base.{
  ℕ, ◌*◌, ◌-◌, ◌≤◌, ◌≡◌, refl, subst, String, none, ltb, arith, Bool-cases, inl, inr,
}
use tread_agent.Reasoning.Types.{LlmJob, Result, ok, err, RenderedPrompt, RawProviderResult}
use tread_agent.Reasoning.Config.{ProviderCfg, ProvidersConfig, call_params_for}
use tread_agent.Reasoning.Retry.Ends.{Ends, run_retrying-Ends}
use tread_agent.Reasoning.Timeout.{judge, finish, run_timed}
use tread_agent.Reasoning.Gateway.Attempt.{
  World, Tried, succeeded, failed, call_record, call, check_text, policy_of, call_retrying,
  conclude, after_call, try_provider,
}

module _ {E A : Type 0} (read_ms : E → ℕ × E) where
  -- A result of an attempt is within the deadline.
  abbrev InTime : ℕ → Result (A × ℕ) × E → Type 0
  InTime limit (ok (a, ms), e) = ms ≤ limit
  InTime limit (err x, e) = Unit

  judge-InTime :
      (provider : String) (limit start : ℕ) (a : A) (r : ℕ × E)
      → InTime limit (judge read_ms provider limit start a r)
  unfolding judge
  judge-InTime provider limit start a (now, e) = elim (Bool-cases (ltb limit (now - start))) [
    | inl h ↦ rw h tt
    | inr h ↦ rw h (ground (arith, h))
  ]

  finish-InTime :
      (provider : String) (limit start : ℕ) (r : Result A × E)
      → InTime limit (finish read_ms provider limit start r)
  unfolding finish
  finish-InTime provider limit start (ok a, e) = judge-InTime provider limit start a (read_ms e)
  finish-InTime provider limit start (err x, e) = tt

  pub run_timed-InTime :
      (seconds : ℕ) (provider : String) (attempt : E → Result A × E) (e : E)
      → InTime (seconds * 1000) (run_timed read_ms seconds provider attempt e)
  unfolding run_timed
  run_timed-InTime seconds provider attempt e = finish-InTime provider (seconds * 1000) _ _

module _ {E D C : Type 0} (world : World E D C) (config : ProvidersConfig) (run_id : String)
    (job : LlmJob) (prompt : RenderedPrompt) where
  abbrev limit_of : ProviderCfg → ℕ
  limit_of p = (call_params_for config p job).timeout_seconds * 1000

  -- A success has an elapsed time within the deadline and no more retries than the policy; a failure
  -- has no retries and no response.
  abbrev pub Timely : ProviderCfg → Tried D C → Type 0
  Timely p (succeeded d r) =
      (r.latency_ms ≤ limit_of p)
      × (r.retries ≤ (policy_of world config run_id job prompt p).retries)
  Timely p (failed r x) = (r.latency_ms ≤ limit_of p) × (r.retries ≡ 0) × (r.response ≡ none)

  conclude-Timely :
      (i : ℕ) (p : ProviderCfg) (raw : RawProviderResult) (elapsed retries : ℕ) (c : Result D)
      (e : E)
      → elapsed ≤ limit_of p
      → retries ≤ (policy_of world config run_id job prompt p).retries
      → Timely p (conclude world config run_id job prompt i p raw elapsed retries c e).0
  unfolding conclude call_record
  conclude-Timely i p raw elapsed retries (ok d) e h k = (h, k)
  conclude-Timely i p raw elapsed retries (err x) e h k = (h, refl, refl)

  after_call-Timely :
      (i : ℕ) (p : ProviderCfg) (attempt : E → Result (RawProviderResult × ℕ) × E) (e : E)
      (r : Result ((RawProviderResult × ℕ) × ℕ) × E)
      → ((s : E) → InTime world.read_ms (limit_of p) (attempt s))
      → Ends
          (policy_of world config run_id job prompt p)
          attempt
          world.sleep
          (policy_of world config run_id job prompt p).retries
          0
          e
          r
      → Timely p (after_call world config run_id job prompt i p r).0
  unfolding after_call call_record
  after_call-Timely i p attempt e (ok ((raw, elapsed), n), e') limit (k, s, le, en, _, last) =
      let within : InTime world.read_ms (limit_of p) (ok (raw, elapsed), e') =
        subst (InTime world.read_ms (limit_of p)) last (limit s) in
      conclude-Timely i p raw elapsed n (check_text world job raw.text) e' within (omega arith)
  after_call-Timely i p attempt e (err x, e') limit ends = (omega arith, refl, refl)

  -- The record of a provider's attempts keeps to the limits: its elapsed time is at most the deadline
  -- of a call, a success has at most the retries of the policy, and a failure has no retries and no
  -- response.
  pub try_provider-Timely :
      (i : ℕ) (p : ProviderCfg) (e : E)
      → Timely p (try_provider world config run_id job prompt i p e).0
  unfolding try_provider call_retrying
  try_provider-Timely i p e =
      let params = call_params_for config p job in
      let attempt =
        run_timed world.read_ms params.timeout_seconds p.name (call world p prompt params) in
      after_call-Timely i p attempt e _
        (λ s.
          run_timed-InTime world.read_ms params.timeout_seconds p.name (call world p prompt params)
            s)
        (run_retrying-Ends (policy_of world config run_id job prompt p) attempt world.sleep e)
