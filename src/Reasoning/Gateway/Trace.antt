-- ===== src/Reasoning/Gateway/Trace.antt =====
-- One round of the chain, and the trace of records that the whole chain leaves.
use tread_agent.Base.{
  ℕ, suc, ◌≡◌, refl, ap, ◌∙◌, append-nil, append_assoc, ◌≢◌, ◌⊎◌, inl, inr, String, Bool, true,
  false, Option, none, some, List, [], ◌∷◌, ◌++◌, arith, if◌then◌else◌,
}
use tread_agent.Reasoning.Types.{
  LlmJob, Outcome, success, circuit_open, Raised, provider_call_error, provider_timeout_error,
  structured_output_error, Result, ok, err, RenderedPrompt, RawProviderResult,
}
use tread_agent.Reasoning.Breaker.{CircuitBreaker}
use tread_agent.Reasoning.Health.{HealthMonitor, record_outcome}
use tread_agent.Reasoning.Config.{ProviderCfg, ProvidersConfig, model_for, call_params_for}
use tread_agent.Reasoning.Gateway.Attempt.{
  World, CallRecord, Tried, succeeded, failed, call_record, conclude, after_call, try_provider,
  outcome_of, record_of,
}
use tread_agent.Reasoning.Gateway.{
  Reason, Answer, DegradedMarker, answered, degraded, Gateway, emit, note_health, set_breaker,
  Visit, hit, miss, skip, settle, decide, visit, walk, run_chain, run, chain_of, marker, no_chain,
  all_exhausted, last_of,
}

outcome_of-ne-success : (x : Raised) → outcome_of x ≢ success
outcome_of-ne-success (provider_call_error _) e = cc
outcome_of-ne-success (provider_timeout_error _ _ _) e = cc
outcome_of-ne-success (structured_output_error _) e = cc

-- The health monitor after the calls that some records tell of.
abbrev pub record_calls : {D C : Type 0} → List (CallRecord D C) → HealthMonitor → HealthMonitor
record_calls [] h = h
record_calls (r ∷ rs) h = record_calls rs (record_outcome r.provider r.outcome r.latency_ms h)

module _ {E D C : Type 0} (world : World E D C) (config : ProvidersConfig) (run_id : String)
    (job : LlmJob) (prompt : RenderedPrompt) where
  -- A record names the run and job, the position in the chain, and the provider with its model.
  pub record IsRecordOf (i : ℕ) (p : ProviderCfg) (r : CallRecord D C) : Type 0 where
    pub run : r.run_id ≡ run_id
    pub of_job : r.llm_job ≡ job
    pub position : r.attempt_index ≡ i
    pub provider : r.provider ≡ p.name
    pub model : r.model_id ≡ model_for p job

  abbrev Reports : ℕ → ProviderCfg → Tried D C → Type 0
  Reports i p (succeeded d r) = IsRecordOf i p r × (r.outcome ≡ success) × (r.response ≡ some d)
  Reports i p (failed r x) = IsRecordOf i p r × (r.outcome ≢ success) × (r.response ≡ none)

  record_of-IsRecordOf :
      (i : ℕ) (p : ProviderCfg) (s : Option (RawProviderResult × D)) (o : Outcome) (l n : ℕ)
      (t : String)
      → IsRecordOf i p (record_of world config run_id job prompt i p s o l n t)
  unfolding call_record call_params_for
  record_of-IsRecordOf i p s o l n t = record {
    run = refl;
    of_job = refl;
    position = refl;
    provider = refl;
    model = refl;
  }

  conclude-Reports :
      (i : ℕ) (p : ProviderCfg) (raw : RawProviderResult) (elapsed retries : ℕ) (c : Result D)
      (e : E)
      → Reports i p (conclude world config run_id job prompt i p raw elapsed retries c e).0
  unfolding conclude
  conclude-Reports i p raw elapsed retries (ok d) e =
      (record_of-IsRecordOf i p (some (raw, d)) success elapsed retries _, refl, refl)
  conclude-Reports i p raw elapsed retries (err x) e =
      (record_of-IsRecordOf i p none (outcome_of x) elapsed 0 _, outcome_of-ne-success x, refl)

  after_call-Reports :
      (i : ℕ) (p : ProviderCfg) (r : Result ((RawProviderResult × ℕ) × ℕ) × E)
      → Reports i p (after_call world config run_id job prompt i p r).0
  unfolding after_call call_record
  after_call-Reports i p (ok ((raw, elapsed), retries), e) =
      conclude-Reports i p raw elapsed retries _ e
  after_call-Reports i p (err x, e) =
      (record_of-IsRecordOf i p none (outcome_of x) 0 0 _, outcome_of-ne-success x, refl)

  try_provider-Reports :
      (i : ℕ) (p : ProviderCfg) (e : E)
      → Reports i p (try_provider world config run_id job prompt i p e).0
  unfolding try_provider
  try_provider-Reports i p e = after_call-Reports i p _

  abbrev Fits : Visit D → CallRecord D C → Type 0
  Fits (hit d) r = (r.outcome ≡ success) × (r.response ≡ some d)
  Fits (miss _) r = (r.outcome ≢ success) × (r.response ≡ none)

  -- What the books of `g'` have more than those of `g`: the records `rs`.
  abbrev pub Books : Gateway D C → Gateway D C → List (CallRecord D C) → Type 0
  Books g g' rs =
      (g'.recording ≡ g.recording)
      × (g'.records ≡ (if g.recording then g.records ++ rs else g.records))
      × (g'.health ≡ record_calls rs g.health)

  -- One round leaves one record, in the books and in the health monitor.
  abbrev Leaves : ℕ → ProviderCfg → Gateway D C → Visit D × Gateway D C × E → Type 0
  Leaves i p g (v, g', e) = (r : CallRecord D C) × IsRecordOf i p r × Books g g' (r ∷ []) × Fits v r

  note-Books :
      (name : String) (g : Gateway D C) (r : CallRecord D C)
      → r.provider ≡ name
      → Books g (note_health world name r.outcome r.latency_ms (emit world r g)) (r ∷ [])
  unfolding note_health emit
  note-Books name g r h = ground arith

  settle-Leaves :
      (i : ℕ) (p : ProviderCfg) (b : CircuitBreaker) (g : Gateway D C) (t : Tried D C) (e : E)
      → Reports i p t
      → Leaves i p g (settle world config run_id job prompt p b g (t, e))
  unfolding settle set_breaker
  settle-Leaves i p b g (succeeded d r) e (own, good, resp) =
      (r, own, note-Books p.name g r own.provider, (good, resp))
  settle-Leaves i p b g (failed r x) e (own, bad, resp) =
      (r, own, note-Books p.name g r own.provider, (bad, resp))

  skip-Leaves :
      (i : ℕ) (p : ProviderCfg) (g : Gateway D C) (e : E)
      → Leaves i p g (skip world config run_id job prompt i p g e)
  unfolding skip call_record
  skip-Leaves i p g e =
      let r = record_of world config run_id job prompt i p none circuit_open 0 0 (world.wall e).0 in
      let own = record_of-IsRecordOf i p none circuit_open 0 0 (world.wall e).0 in
      (r, own, note-Books p.name g r own.provider, ((λ q. cc), refl))

  decide-Leaves :
      (i : ℕ) (p : ProviderCfg) (g : Gateway D C) (e : E) (a : Bool × CircuitBreaker)
      → Leaves i p g (decide world config run_id job prompt i p g e a)
  unfolding decide set_breaker
  decide-Leaves i p g e (true, b) = settle-Leaves i p b _ _ _ (try_provider-Reports i p e)
  decide-Leaves i p g e (false, b) = skip-Leaves i p _ e

  visit-Leaves :
      (i : ℕ) (p : ProviderCfg) (g : Gateway D C) (e : E)
      → Leaves i p g (visit world config run_id job prompt i p g e)
  unfolding visit
  visit-Leaves i p g e = decide-Leaves i p _ _ _

  -- The records and the answer of a chain walked from position `i`, where `last` is the marker if no
  -- provider is left: one record for each provider up to the first success, which gives the
  -- answer; without a success one for every provider, and the marker names the last of them.
  abbrev pub Trace :
      ℕ → List ProviderCfg → DegradedMarker → List (CallRecord D C) → Answer D → Type 0
  Trace i [] last rs answer = (rs ≡ []) × (answer ≡ degraded last)
  Trace i (p ∷ ps) last rs answer =
      (r : CallRecord D C) × (rest : List (CallRecord D C)) × (rs ≡ r ∷ rest)
      × IsRecordOf i p r
      × (((d : D) × (r.outcome ≡ success)
            × (r.response ≡ some d)
            × (rest ≡ [])
            × (answer ≡ answered d))
          ⊎ ((reason : Reason) × (r.outcome ≢ success)
              × Trace (suc i) ps (marker world config run_id job prompt reason p) rest answer))

  abbrev pub Walks :
      ℕ → List ProviderCfg → DegradedMarker → Gateway D C → Answer D × Gateway D C × E → Type 0
  Walks i ps last g (answer, g', e') =
      (rs : List (CallRecord D C)) × Trace i ps last rs answer × Books g g' rs

  Books-trans :
      (g g' g'' : Gateway D C) (r : CallRecord D C) (rs : List (CallRecord D C))
      → Books g g' (r ∷ [])
      → Books g' g'' rs
      → Books g g'' (r ∷ rs)
  Books-trans g g' g'' r rs h k = (
    k.0 ∙ h.0,
    ground (arith, append_assoc g.records (r ∷ []) rs),
    k.2 ∙ ap (record_calls rs) h.2,
  )

  after_visit :
      (i : ℕ) (p : ProviderCfg) (ps : List ProviderCfg) (last : DegradedMarker) (g : Gateway D C)
      (v : Visit D) (g' : Gateway D C) (e' : E)
      → Leaves i p g (v, g', e')
      → ((reason : Reason)
          → Walks (suc i) ps (marker world config run_id job prompt reason p) g' (
              walk world config run_id job prompt
                (suc i)
                ps
                (marker world config run_id job prompt reason p)
                g'
                e'))
      → Walks i (p ∷ ps) last g (elim v [
        | hit d ↦ (answered d, g', e')
        | miss reason ↦
            walk world config run_id job prompt
              (suc i)
              ps
              (marker world config run_id job prompt reason p)
              g'
              e'
      ])
  after_visit i p ps last g (hit d) g' e' (r, own, books, fits) ih =
      (r ∷ [], (r, [], refl, own, inl (d, fits.0, fits.1, refl, refl)), books)
  after_visit i p ps last g (miss reason) g' e' (r, own, books, fits) ih =
      let (rs, trace, later) = ih reason in
      (
        r ∷ rs,
        (r, rs, refl, own, inr (reason, fits.0, trace)),
        Books-trans g g'
            (walk world config run_id job prompt (suc i) ps
              (marker world config run_id job prompt reason p) g' e').1
            r rs books later,
      )

  walk-Walks :
      (i : ℕ) (ps : List ProviderCfg) (last : DegradedMarker) (g : Gateway D C) (e : E)
      → Walks i ps last g (walk world config run_id job prompt i ps last g e)
  unfolding walk
  walk-Walks i [] last g e = ([], (refl, refl), (refl, ground (arith, append-nil g.records), refl))
  walk-Walks i (p ∷ ps) last g e =
      after_visit i p ps last g _ _ _ (visit-Leaves i p g e) (λ reason. walk-Walks (suc i) ps _ _ _)

  run_chain-Walks :
      (ps : List ProviderCfg) (g : Gateway D C) (e : E)
      → Walks 0 ps (no_chain job) g (run_chain world config run_id job prompt ps g e)
  unfolding run_chain
  run_chain-Walks [] g e = ([], (refl, refl), (refl, ground (arith, append-nil g.records), refl))
  run_chain-Walks (p ∷ ps) g e =
      walk-Walks 0 (p ∷ ps) (marker world config run_id job prompt all_exhausted (last_of p ps)) g e

  -- A run always answers: with the data of the first provider of its chain that succeeds, or, if
  -- none does, with a marker that names the last provider of the chain and its model (a marker
  -- without names for an empty chain). There is one record for each provider up to the first
  -- success, in order; it names the run, the job, its position in the chain, the provider and the
  -- model. A recorder has been given just these records in addition, and the health monitor has
  -- noted each of them, and nothing else.
  pub run-Walks :
      (g : Gateway D C) (e : E)
      → Walks 0
          (chain_of world config run_id job prompt)
          (no_chain job)
          g
          (run world config run_id job prompt g e)
  unfolding run
  run-Walks g e = run_chain-Walks _ g e
