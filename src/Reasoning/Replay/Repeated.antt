-- ===== src/Reasoning/Replay/Repeated.antt =====
-- A recorded attempt of src/market_state_engine/reasoning/gateway.py, replayed.
use tread_agent.Base.{
  ◌≡◌, refl, subst, ap, ◌∙◌, inl, inr, ℕ, ◌+◌, ◌-◌, ◌*◌, ◌≤◌, String, true, false, Option, none,
  some, List, ◌∷◌, is_some, ltb, arith, Bool-cases,
}
use tread_agent.Base.Dict.{Dict, lookup, insert}
use tread_agent.Reasoning.Types.{
  LlmJob, success, timeout, error, Raised, provider_call_error, provider_timeout_error,
  is_retryable, Result, ok, err, RenderedPrompt, RawProviderResult, CallParams,
}
use tread_agent.Reasoning.Config.{ProviderCfg, ProvidersConfig, call_params_for}
use tread_agent.Reasoning.Retry.{RetryPolicy, run_retrying, conclude as ended}
use tread_agent.Reasoning.Gateway.Fresh.{record_in}
use tread_agent.Reasoning.Timeout.{run_timed, judge}
use tread_agent.Reasoning.Gateway.Attempt.{
  World, CallRecord, Tried, succeeded, failed, outcome_of, call_record, call, check_text, policy_of,
  call_retrying, conclude, after_call, try_provider,
}
use tread_agent.Reasoning.Replay.{
  ReplayProvider, served, result_from_record, complete, build_replay_adapters,
}
use tread_agent.Reasoning.Replay.Served.{queue_at}
use tread_agent.Reasoning.Replay.Rebuilt.{Clocks, IsSteady, Replaying, complete_by, replay_world}
use tread_agent.Reasoning.Replay.Verified.{Critical, critical}
use tread_agent.Reasoning.Replay.Attempts.{
  Tells, criticals_of, criticals-Tells, provider-Tells, validate-ok,
}

module _ {E D C : Type 0} (world : World E D C) (config : ProvidersConfig) (run_id : String)
    (job : LlmJob) (prompt : RenderedPrompt) where
  module _ {F : Type 0} (dumps : Option D → String) (clocks : Clocks F)
      (all : List (CallRecord D C)) where
    abbrev replayed : World (Replaying D C F) D C
    replayed = replay_world dumps world clocks all

    -- The provider's adapter is in its place, with the record in front of its queue.
    pub record Ready (adapters : Dict (ReplayProvider D C)) (r : CallRecord D C) : Type 0 where
      pub adapter : ReplayProvider D C
      pub bound : is_some (lookup r.provider (build_replay_adapters all)) ≡ true
      pub placed : lookup r.provider adapters ≡ some adapter
      pub named : adapter.name ≡ r.provider
      pub rest : List (CallRecord D C)
      pub queued : queue_at r.prompt_hash adapter.by_hash ≡ r ∷ rest

    -- The answer, the adapters after it, and some state of the clocks.
    abbrev Gives :
        {A B : Type 0}
        → (B → A → Type 0)
        → Result A
        → Dict (ReplayProvider D C)
        → Result B × Replaying D C F
        → Type 0
    Gives R (ok a) adapters (ok b, s) = R b a × (s.0 ≡ adapters)
    Gives R (ok a) adapters (err x, s) = ⊥
    Gives R (err x) adapters (ok b, s) = ⊥
    Gives R (err x) adapters (err y, s) = (y ≡ x) × (s.0 ≡ adapters)

    -- The same for the raw answer in a timed one, and in one that is also retried.
    abbrev Timed :
        Result RawProviderResult
        → Dict (ReplayProvider D C)
        → Result (RawProviderResult × ℕ) × Replaying D C F
        → Type 0
    Timed = Gives (λ b a. b.0 ≡ a)

    abbrev Retried :
        Result RawProviderResult
        → Dict (ReplayProvider D C)
        → Result ((RawProviderResult × ℕ) × ℕ) × Replaying D C F
        → Type 0
    Retried = Gives (λ b a. b.0.0 ≡ a)

    call-Ready :
        (p : ProviderCfg) (params : CallParams) (s : Replaying D C F) (r : CallRecord D C)
        → Ready s.0 r
        → r.provider ≡ p.name
        → r.prompt_hash ≡ prompt.prompt_hash
        → (after : ReplayProvider D C) × (call replayed p prompt params s
            ≡ (result_from_record dumps p.name r, (insert p.name after s.0, s.1)))
    unfolding call replay_world complete_by complete
    call-Ready p params s r ready e h =
        let placed = subst (λ k. lookup k s.0 ≡ some ready.adapter) e ready.placed in
        let queued =
          subst (λ k. queue_at k ready.adapter.by_hash ≡ r ∷ ready.rest) h ready.queued in
        let bound =
          subst (λ k. is_some (lookup k (build_replay_adapters all)) ≡ true) e ready.bound in
        (
          record (ready.adapter) {
            by_hash = insert prompt.prompt_hash ready.rest ready.adapter.by_hash;
          },
          rw (bound, placed, queued, ready.named, e) refl,
        )

    run_timed-Gives :
        (limit : ℕ) (name : String)
        (attempt : Replaying D C F → Result RawProviderResult × Replaying D C F)
        (s : Replaying D C F) (answer : Result RawProviderResult)
        (adapters : Dict (ReplayProvider D C))
        → (clocks.read_ms (clocks.read_ms s.1).1).0 ≤ (clocks.read_ms s.1).0 + limit * 1000
        → attempt (s.0, (clocks.read_ms s.1).1) ≡ (answer, (adapters, (clocks.read_ms s.1).1))
        → Timed answer adapters (run_timed replayed.read_ms limit name attempt s)
    unfolding run_timed judge replay_world
    run_timed-Gives limit name attempt s (ok raw) adapters q h =
        let now = (clocks.read_ms (clocks.read_ms s.1).1).0 in
        let intime : ltb (limit * 1000) (now - (clocks.read_ms s.1).0) ≡ false = ground arith in
        rw (h, intime) (refl, refl)
    run_timed-Gives limit name attempt s (err x) adapters q h = rw h (refl, refl)

    run_retrying-Gives :
        (policy : RetryPolicy)
        (attempt : Replaying D C F → Result (RawProviderResult × ℕ) × Replaying D C F)
        (s : Replaying D C F) (answer : Result RawProviderResult)
        (adapters : Dict (ReplayProvider D C))
        → policy.retries ≡ 0
        → Timed answer adapters (attempt s)
        → Retried answer adapters (run_retrying policy attempt replayed.sleep s)
    unfolding run_retrying
    run_retrying-Gives policy attempt s answer adapters z h = rw z (once (attempt s) answer h)
      where
        once :
            (t : Result (RawProviderResult × ℕ) × Replaying D C F)
            (answer : Result RawProviderResult)
            → Timed answer adapters t
            → Retried answer adapters
                (ended policy attempt replayed.sleep 0 t (λ x e'. (err x, e')))
        once (ok b, e) (ok a) h = h
        once (ok b, e) (err x) h = absurd h
        once (err y, e) (ok a) h = absurd h
        once (err y, e) (err x) h = elim (Bool-cases (is_retryable y)) [
          | inl k ↦ rw k h
          | inr k ↦ rw k h
        ]

    -- What the replayed attempt has in common with the recorded one.
    abbrev pub Repeats : Tried D C → Tried D C → Type 0
    Repeats (succeeded d r) (succeeded d' r') = (d ≡ d') × (critical r ≡ critical r')
    Repeats (failed r x) (failed r' x') = critical r ≡ critical r'
    Repeats _ _ = ⊥

    after_success :
        (i : ℕ) (p : ProviderCfg) (d : D) (r : CallRecord D C) (raw : RawProviderResult)
        (adapters : Dict (ReplayProvider D C))
        (c : Result ((RawProviderResult × ℕ) × ℕ) × Replaying D C F)
        → critical r ≡ criticals_of world config run_id job prompt i p (some d) success
        → check_text world job raw.text ≡ ok d
        → Retried (ok raw) adapters c
        → Repeats (succeeded d r) (after_call replayed config run_id job prompt i p c).0
          × ((after_call replayed config run_id job prompt i p c).1.0 ≡ adapters)
    unfolding after_call conclude call_record check_text replay_world
    after_success i p d r raw adapters (err x, e) h k g = absurd g
    after_success i p d r raw adapters (ok ((raw', elapsed), retries), e) h k g =
        let read : check_text world job raw'.text ≡ ok d =
          ap (λ t. check_text world job t.text) g.0 ∙ k in
        rw read ((refl, h), g.1)

    after_failure :
        (i : ℕ) (p : ProviderCfg) (r : CallRecord D C) (x y : Raised)
        (adapters : Dict (ReplayProvider D C))
        (c : Result ((RawProviderResult × ℕ) × ℕ) × Replaying D C F)
        → critical r ≡ criticals_of world config run_id job prompt i p none (outcome_of y)
        → Retried (err y) adapters c
        → Repeats (failed r x) (after_call replayed config run_id job prompt i p c).0
          × ((after_call replayed config run_id job prompt i p c).1.0 ≡ adapters)
    unfolding after_call call_record replay_world
    after_failure i p r x y adapters (ok b, e) h g = absurd g
    after_failure i p r x y adapters (err z, e) h g = (rw g.0 h, g.1)

    module _ (parses : (d : D) → world.parse_json (dumps (some d)) ≡ ok d) where
      after_call-Repeats :
          (i : ℕ) (p : ProviderCfg) (t : Tried D C) (adapters : Dict (ReplayProvider D C))
          (c : Result ((RawProviderResult × ℕ) × ℕ) × Replaying D C F)
          → Tells world config run_id job prompt i p t
          → Retried (result_from_record dumps p.name (record_in t)) adapters c
          → Repeats t (after_call replayed config run_id job prompt i p c).0
            × ((after_call replayed config run_id job prompt i p c).1.0 ≡ adapters)
      unfolding check_text
      after_call-Repeats i p (succeeded d r) adapters c (h, k, v) g =
          let o : r.outcome ≡ success = ap (λ (x : Critical). x.outcome) h in
          after_success i p d r (served dumps r) adapters c h
            (rw (k, parses d) (validate-ok world config run_id job prompt d v)) (rw o at g)
      after_call-Repeats i p (failed r x) adapters c (inl h) g =
          let o : r.outcome ≡ timeout = ap (λ (x : Critical). x.outcome) h in
          after_failure i p r x (provider_timeout_error p.name 0 0) adapters c h (rw o at g)
      after_call-Repeats i p (failed r x) adapters c (inr h) g =
          let o : r.outcome ≡ error = ap (λ (x : Critical). x.outcome) h in
          after_failure i p r x (provider_call_error p.name) adapters c h (rw o at g)

      -- A recorded attempt, replayed: the same response or a failure of the same kind, and the same
      -- record but for times, tokens and prices. Only the adapter of the provider has changed.
      pub try_provider-Repeats :
          (i : ℕ) (p : ProviderCfg) (t : Tried D C) (s : Replaying D C F)
          → Tells world config run_id job prompt i p t
          → IsSteady config job clocks p
          → Ready s.0 (record_in t)
          → (after : ReplayProvider D C) × Repeats t
              (try_provider replayed config run_id job prompt i p s).0
            × ((try_provider replayed config run_id job prompt i p s).1.0 ≡ insert p.name after s.0)
      unfolding try_provider call_retrying policy_of
      try_provider-Repeats i p t s h steady ready =
          let params = call_params_for config p job in
          let (after, called) =
            call-Ready p params (s.0, (clocks.read_ms s.1).1) (record_in t) ready
              (provider-Tells world config run_id job prompt i p t h)
              (ap (λ (x : Critical). x.prompt_hash)
                (criticals-Tells world config run_id job prompt i p t h).1) in
          let (same, adapters) = after_call-Repeats i p t _ _ h (
            run_retrying-Gives (policy_of world config run_id job prompt p) _ s _ _ steady.once (
              run_timed-Gives params.timeout_seconds p.name (call replayed p prompt params) s _ _
                (steady.quick s.1) called)) in
          (after, same, adapters)
