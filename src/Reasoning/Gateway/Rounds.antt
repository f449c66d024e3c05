-- ===== src/Reasoning/Gateway/Rounds.antt =====
-- A round of src/market_state_engine/reasoning/gateway.py, as calls on the breaker of its provider.
use tread_agent.Base.{
  ◌≡◌, refl, sym, subst, ap, ◌∙◌, inl, inr, ℕ, String, Bool, true, false, none, List, [], ◌∷◌, ◌++◌,
  All, All-append, eq_refl,
}
use tread_agent.Reasoning.Types.{LlmJob, success, timeout, error, circuit_open, RenderedPrompt}
use tread_agent.Reasoning.Health.{is_success}
use tread_agent.Reasoning.Breaker.{
  CircuitBreaker, allows, record_success, record_failure, for_provider, Call,
  succeeded as reported_success, failed as reported_failure, step, run,
}
use tread_agent.Reasoning.Breaker.Decided.{results, results-append, run-append}
use tread_agent.Reasoning.Config.{ProviderCfg, ProvidersConfig, call_params_for}
use tread_agent.Reasoning.Gateway.Attempt.{World, Tried, succeeded, failed, call_record}
use tread_agent.Reasoning.Gateway.{
  Gateway, note_health, set_breaker, fail_breaker, skip, settle, decide, visit,
}
use tread_agent.Reasoning.Replay.Verified.{Critical}
use tread_agent.Reasoning.Replay.Attempts.{Tells, try_provider-Tells}
use tread_agent.Reasoning.Gateway.Alone.{
  breaker_of, is_skip, IsRead, IsUnder, IsRound, look-polls, fail_breaker-fails,
  set_breaker-IsUnder, closes, for_provider-IsUnder, emit-set_breaker,
}

module _ {E D C : Type 0} (world : World E D C) where
  module _ (config : ProvidersConfig) (run_id : String) (job : LlmJob)
      (prompt : RenderedPrompt) where
    -- The attempt's record is of the provider, and says whether it succeeded.
    abbrev Attempted : ProviderCfg → Tried D C → Type 0
    Attempted p (succeeded d r) = (r.provider ≡ p.name) × (r.outcome ≡ success)
    Attempted p (failed r x) =
        (r.provider ≡ p.name) × (is_skip r.outcome ≡ false) × (is_success r.outcome ≡ false)

    told-Attempted :
        (i : ℕ) (p : ProviderCfg) (t : Tried D C)
        → Tells world config run_id job prompt i p t
        → Attempted p t
    told-Attempted i p (succeeded d r) h =
        (ap (λ (x : Critical). x.provider) h.0, ap (λ (x : Critical). x.outcome) h.0)
    told-Attempted i p (failed r x) (inl h) =
        let outcome : r.outcome ≡ timeout = ap (λ (x : Critical). x.outcome) h in
        (ap (λ (x : Critical). x.provider) h, rw outcome refl, rw outcome refl)
    told-Attempted i p (failed r x) (inr h) =
        let outcome : r.outcome ≡ error = ap (λ (x : Critical). x.outcome) h in
        (ap (λ (x : Critical). x.provider) h, rw outcome refl, rw outcome refl)

    settle-IsRound :
        (p : ProviderCfg) (b : CircuitBreaker) (g₀ g : Gateway D C) (t : Tried D C × E)
        (polls : List Call)
        → IsUnder world p.name g₀ g
        → Attempted p t.0
        → All (IsRead world) polls
        → results polls ≡ []
        → b ≡ run (breaker_of p.name g₀.breakers) polls
        → IsRound world p.name g₀ (settle world config run_id job prompt p b g t).1
    unfolding settle run step
    settle-IsRound p b g₀ g (succeeded d r, e) polls u (name, o) read none_yet reached =
        closes world p.name (record_success b) g₀ g r r.outcome r.latency_ms
          (polls ++ reported_success ∷ []) u
          (All-append (IsRead world) polls (reported_success ∷ []) read (tt, tt)) name
          (results-append polls (reported_success ∷ [])
            ∙ rw (none_yet, name, o, eq_refl p.name) refl)
          (ap record_success reached ∙ sym (run-append _ polls (reported_success ∷ [])))
    settle-IsRound p b g₀ g (failed r x, e) polls u (name, made, bad) read none_yet reached =
        let (now, later, fails, earlier, after) = fail_breaker-fails world b e in
        let report = reported_failure now later ∷ [] in
        closes world p.name (fail_breaker world b e).0 g₀ g r r.outcome r.latency_ms
          (polls ++ report) u (All-append (IsRead world) polls report read ((earlier, after), tt))
          name (results-append polls report ∙ rw (none_yet, name, made, bad, eq_refl p.name) refl)
          (fails ∙ ap (record_failure now later) reached ∙ sym (run-append _ polls report))

    skip-IsRound :
        (i : ℕ) (p : ProviderCfg) (b : CircuitBreaker) (g₀ g : Gateway D C) (e : E)
        (polls : List Call)
        → IsUnder world p.name g₀ g
        → All (IsRead world) polls
        → results polls ≡ []
        → b ≡ run (breaker_of p.name g₀.breakers) polls
        → IsRound world p.name g₀
            (skip world config run_id job prompt i p (set_breaker world p.name b g) e).1
    unfolding skip call_record set_breaker note_health
    skip-IsRound i p b g₀ g e polls u read none_yet reached =
        let r =
          call_record world run_id job i p (call_params_for config p job) prompt none circuit_open 0
            0 (world.wall e).0 in
        subst (IsRound world p.name g₀)
          (ap (note_health world p.name circuit_open 0) (emit-set_breaker world p.name b g r))
          (closes world p.name b g₀ g r circuit_open 0 polls u read refl
            (rw (none_yet, eq_refl p.name) refl) reached)

    decide-IsRound :
        (i : ℕ) (p : ProviderCfg) (g₀ g : Gateway D C) (e : E) (a : Bool × CircuitBreaker)
        (polls : List Call)
        → IsUnder world p.name g₀ g
        → All (IsRead world) polls
        → results polls ≡ []
        → a.1 ≡ run (breaker_of p.name g₀.breakers) polls
        → IsRound world p.name g₀ (decide world config run_id job prompt i p g e a).1
    unfolding decide
    decide-IsRound i p g₀ g e (true, b) polls u read none_yet reached =
        settle-IsRound p b g₀ (set_breaker world p.name b g) _ polls
          (set_breaker-IsUnder world p.name b g₀ g u)
          (told-Attempted i p _ (try_provider-Tells world config run_id job prompt i p e)) read
          none_yet reached
    decide-IsRound i p g₀ g e (false, b) polls u read none_yet reached =
        skip-IsRound i p b g₀ g e polls u read none_yet reached

    pub visit-IsRound :
        (i : ℕ) (p : ProviderCfg) (g : Gateway D C) (e : E)
        → g.recording ≡ true
        → IsRound world p.name g (visit world config run_id job prompt i p g e).1
    unfolding visit allows
    visit-IsRound i p g e rec =
        let (same, u) = for_provider-IsUnder world p.name g rec in
        let (polls, polled_by, read, none_yet) =
          look-polls world (for_provider p.name g.breakers).0 e in
        decide-IsRound i p g _ _ _ polls u read none_yet (polled_by ∙ ap (λ b. run b polls) same)
