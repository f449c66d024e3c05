-- ===== src/Reasoning/Gateway/Fresh.antt =====
-- The round of a provider whose breaker has not been used, as in the first run of a new gateway.
use tread_agent.Base.{◌≡◌, refl, ap, ◌∙◌, ℕ, String, true, false, none, [], ◌∷◌, ◌++◌, str_eq}
use tread_agent.Base.Dict.{lookup, insert, lookup-insert}
use tread_agent.Reasoning.Types.{LlmJob, RenderedPrompt}
use tread_agent.Reasoning.Breaker.{
  allows, maybe_half_open, for_provider, put_breaker, new_breaker, CircuitBreaker,
  CircuitBreakerRegistry,
}
use tread_agent.Reasoning.Config.{ProviderCfg, ProvidersConfig}
use tread_agent.Reasoning.Gateway.Attempt.{
  World, CallRecord, Tried, succeeded, failed, try_provider,
}
use tread_agent.Reasoning.Gateway.{
  Gateway, Visit, hit, miss, raised, emit, note_health, set_breaker, look, fail_breaker, settle,
  decide, visit,
}

-- The record of an attempt.
abbrev pub record_in : {D C : Type 0} → Tried D C → CallRecord D C
record_in (succeeded d r) = r
record_in (failed r x) = r

for_provider-fresh :
    (name : String) (reg : CircuitBreakerRegistry)
    → lookup name reg.breakers ≡ none
    → for_provider name reg ≡ (
      new_breaker reg.cfg,
      record reg { breakers = insert name (new_breaker reg.cfg) reg.breakers },
    )
unfolding for_provider
for_provider-fresh name reg h = rw (h, for_provider) refl

others-insert :
    (name other : String) (b : CircuitBreaker) (reg : CircuitBreakerRegistry)
    → str_eq name other ≡ false
    → lookup other reg.breakers ≡ none
    → lookup other (put_breaker name b reg).breakers ≡ none
unfolding put_breaker
others-insert name other b reg h f = lookup-insert name other b reg.breakers ∙ rw h f

module _ {E D C : Type 0} (world : World E D C) (config : ProvidersConfig) (run_id : String)
    (job : LlmJob) (prompt : RenderedPrompt) where
  -- The breaker of the name has not been made.
  abbrev pub IsFresh : String → Gateway D C → Type 0
  IsFresh name g = lookup name g.breakers.breakers ≡ none

  -- What the gateway has after the attempt: one more record, and a breaker for its provider.
  pub record Noted (name : String) (r : CallRecord D C) (g g' : Gateway D C) : Type 0 where
    pub recording : g'.recording ≡ true
    pub records : g'.records ≡ g.records ++ r ∷ []
    pub others : (other : String) → str_eq name other ≡ false → IsFresh other g → IsFresh other g'

  -- How the round goes on after the attempt: the state after a failure reads the clock of the breaker.
  abbrev pub Rounds : ProviderCfg → Gateway D C → Tried D C × E → Visit D × Gateway D C × E → Type 0
  Rounds p g (succeeded d r, e) (v, g', e') = (v ≡ hit d) × Noted p.name r g g' × (e' ≡ e)
  Rounds p g (failed r x, e) (v, g', e') =
      (v ≡ miss (raised x))
      × Noted p.name r g g'
      × ((b : CircuitBreaker) × (e' ≡ (fail_breaker world b e).1))

  settle-Noted :
      (p : ProviderCfg) (b : CircuitBreaker) (g g₀ : Gateway D C) (r : CallRecord D C)
      → g.recording ≡ true
      → g.records ≡ g₀.records
      → ((other : String) → str_eq p.name other ≡ false → IsFresh other g₀ → IsFresh other g)
      → Noted p.name r g₀ (
          set_breaker world p.name b
            (note_health world p.name r.outcome r.latency_ms (emit world r g)))
  unfolding emit note_health set_breaker
  settle-Noted p b g g₀ r rec same others = rw rec (record {
    recording = refl;
    records = ap (λ rs. rs ++ r ∷ []) same;
    others = λ other h f. others-insert p.name other b g.breakers h (others other h f);
  })

  settle-Rounds :
      (p : ProviderCfg) (b : CircuitBreaker) (g g₀ : Gateway D C) (t : Tried D C × E)
      → g.recording ≡ true
      → g.records ≡ g₀.records
      → ((other : String) → str_eq p.name other ≡ false → IsFresh other g₀ → IsFresh other g)
      → Rounds p g₀ t (settle world config run_id job prompt p b g t)
  unfolding settle emit note_health set_breaker put_breaker
  settle-Rounds p b g g₀ (succeeded d r, e) rec same others =
      (refl, settle-Noted p _ g g₀ r rec same others, refl)
  settle-Rounds p b g g₀ (failed r x, e) rec same others =
      (refl, settle-Noted p _ g g₀ r rec same others, (b, refl))

  -- A provider whose breaker is fresh is tried.
  pub visit-Rounds :
      (i : ℕ) (p : ProviderCfg) (g : Gateway D C) (e : E)
      → g.recording ≡ true
      → IsFresh p.name g
      → Rounds p g
          (try_provider world config run_id job prompt i p e)
          (visit world config run_id job prompt i p g e)
  unfolding visit decide look allows maybe_half_open new_breaker set_breaker put_breaker
  visit-Rounds i p g e rec fresh = rw (for_provider-fresh p.name g.breakers fresh) (
      settle-Rounds p (new_breaker g.breakers.cfg) _ g _ rec refl (λ other h f.
        let first = others-insert p.name other (new_breaker g.breakers.cfg) g.breakers h f in
        others-insert p.name other (new_breaker g.breakers.cfg)
          (record g.breakers {
            breakers = insert p.name (new_breaker g.breakers.cfg) g.breakers.breakers;
          })
          h first))
