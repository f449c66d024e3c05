-- ===== src/Reasoning/Gateway/Bookkeeping.antt =====
-- What a run does to the breakers, and that an open breaker keeps its provider from being called.
use tread_agent.Base.{
  ℕ, ◌+◌, ◌≤◌, ◌<◌, ◌≡◌, refl, ◌∙◌, subst, inl, inr, String, Bool, true, false, some, arith,
  if◌then◌else◌, str_eq, eq_refl, Option-cases, Bool-cases,
}
use tread_agent.Base.Dict.{lookup, insert, lookup-insert}
use tread_agent.Reasoning.Types.{LlmJob, Outcome, circuit_open, RenderedPrompt}
use tread_agent.Reasoning.Breaker.{
  CircuitBreaker, CircuitBreakerRegistry, opened, allows, for_provider, put_breaker, new_breaker,
}
use tread_agent.Reasoning.Breaker.Invariant.{
  IsValid, new_breaker-IsValid, maybe_half_open-IsValid, record_failure-IsValid,
  record_success-IsValid,
}
use tread_agent.Reasoning.Config.{ProviderCfg, ProvidersConfig}
use tread_agent.Reasoning.Gateway.Attempt.{World, CallRecord, Tried, succeeded, failed}
use tread_agent.Reasoning.Gateway.{
  Gateway, miss, circuit_is_open, emit, note_health, set_breaker, look, fail_breaker, skip, settle,
  decide, visit,
}

-- Every breaker of the registry is valid, and so will be those to come.
pub record AllValid (reg : CircuitBreakerRegistry) : Type 0 where
  pub usable : 1 ≤ reg.cfg.failure_threshold
  pub each : (name : String) (b : CircuitBreaker) → lookup name reg.breakers ≡ some b → IsValid b

lookup-put_breaker :
    (n name : String) (b : CircuitBreaker) (reg : CircuitBreakerRegistry)
    → lookup name (put_breaker n b reg).breakers
      ≡ (if str_eq n name then some b else lookup name reg.breakers)
unfolding put_breaker
lookup-put_breaker n name b reg = lookup-insert n name b reg.breakers

put_breaker-AllValid :
    (n : String) (b : CircuitBreaker) (reg : CircuitBreakerRegistry)
    → IsValid b
    → AllValid reg
    → AllValid (put_breaker n b reg)
unfolding put_breaker
put_breaker-AllValid n b reg v all = record { usable = all.usable; each = at }
  where
    at :
        (name : String) (c : CircuitBreaker)
        → lookup name (insert n b reg.breakers) ≡ some c
        → IsValid c
    at name c e = elim (Bool-cases (str_eq n name)) [
      | inl t ↦
          let same : b ≡ c = ground (arith, lookup-insert n name b reg.breakers) in
          subst IsValid same v
      | inr f ↦ all.each name c (ground (arith, lookup-insert n name b reg.breakers))
    ]

for_provider-AllValid :
    (n : String) (reg : CircuitBreakerRegistry)
    → AllValid reg
    → IsValid (for_provider n reg).0 × AllValid (for_provider n reg).1
unfolding for_provider put_breaker
for_provider-AllValid n reg all = elim (Option-cases (lookup n reg.breakers)) [
  | inl e ↦
      rw (e, for_provider)
        (
          new_breaker-IsValid reg.cfg all.usable,
          put_breaker-AllValid n (new_breaker reg.cfg) reg (new_breaker-IsValid reg.cfg all.usable)
              all,
        )
  | inr (b, e) ↦ rw (e, for_provider) (all.each n b e, all)
]

for_provider_known :
    (n : String) (reg : CircuitBreakerRegistry) (b : CircuitBreaker)
    → lookup n reg.breakers ≡ some b
    → for_provider n reg ≡ (b, reg)
unfolding for_provider
for_provider_known n reg b h = rw (h, for_provider)

allows_early :
    (now : ℕ) (b : CircuitBreaker) (t : ℕ)
    → b.state ≡ opened
    → b.opened_at ≡ some t
    → now < t + b.half_open_after_seconds
    → allows now b ≡ (false, b)
unfolding allows
allows_early now b t is_open since early = ground arith

allows-IsValid : (now : ℕ) (b : CircuitBreaker) → IsValid b → IsValid (allows now b).1
unfolding allows
allows-IsValid now b v = maybe_half_open-IsValid now b v

module _ {E D C : Type 0} (world : World E D C) where
  abbrev Sound : Gateway D C → Type 0
  Sound g = AllValid g.breakers

  look_opened :
      (b : CircuitBreaker) (e : E) (t : ℕ)
      → b.state ≡ opened
      → b.opened_at ≡ some t
      → look world b e ≡ world.read_s e
  unfolding look
  look_opened b e t is_open since = ground arith

  lookup-set_breaker :
      (n : String) (b : CircuitBreaker) (g : Gateway D C)
      → lookup n (set_breaker world n b g).breakers.breakers ≡ some b
  unfolding set_breaker
  lookup-set_breaker n b g = lookup-put_breaker n n b g.breakers ∙ ground (arith, eq_refl n)

  set_breaker-Sound :
      (n : String) (b : CircuitBreaker) (g : Gateway D C)
      → IsValid b
      → Sound g
      → Sound (set_breaker world n b g)
  unfolding set_breaker
  set_breaker-Sound n b g v s = put_breaker-AllValid n b g.breakers v s

  fail_breaker-IsValid :
      (b : CircuitBreaker) (e : E) → IsValid b → IsValid (fail_breaker world b e).0
  unfolding fail_breaker
  fail_breaker-IsValid b e v = record_failure-IsValid _ _ b v

  abbrev booked : String → CallRecord D C → Outcome → ℕ → Gateway D C → Gateway D C
  booked n r o l g = note_health world n o l (emit world r g)

  booked-Sound :
      (n : String) (r : CallRecord D C) (o : Outcome) (l : ℕ) (g : Gateway D C)
      → Sound g
      → Sound (booked n r o l g)
  unfolding note_health emit
  booked-Sound n r o l g s = elim (Bool-cases g.recording) [
    | inl e ↦ rw (e, emit) s
    | inr e ↦ rw (e, emit) s
  ]

  module _ (config : ProvidersConfig) (run_id : String) (job : LlmJob)
      (prompt : RenderedPrompt) where
    skip_result :
        (i : ℕ) (p : ProviderCfg) (g : Gateway D C) (e : E) (b : CircuitBreaker)
        → lookup p.name g.breakers.breakers ≡ some b
        → let (v, g', e') = skip world config run_id job prompt i p g e in
          (v ≡ miss (circuit_is_open p.name))
          × (e' ≡ (world.wall e).1)
          × (lookup p.name g'.breakers.breakers ≡ some b)
    unfolding skip
    skip_result i p g e b h = (refl, refl, ground arith)

    settle-Sound :
        (p : ProviderCfg) (b : CircuitBreaker) (g : Gateway D C) (t : Tried D C × E)
        → IsValid b
        → Sound g
        → Sound (settle world config run_id job prompt p b g t).1
    unfolding settle
    settle-Sound p b g (succeeded d r, e) v s =
        set_breaker-Sound p.name _ (booked p.name r r.outcome r.latency_ms g)
          (record_success-IsValid b v) (booked-Sound p.name r r.outcome r.latency_ms g s)
    settle-Sound p b g (failed r x, e) v s =
        set_breaker-Sound p.name _ (booked p.name r r.outcome r.latency_ms g)
          (fail_breaker-IsValid b e v) (booked-Sound p.name r r.outcome r.latency_ms g s)

    decide-Sound :
        (i : ℕ) (p : ProviderCfg) (g : Gateway D C) (e : E) (a : Bool × CircuitBreaker)
        → IsValid a.1
        → Sound g
        → Sound (decide world config run_id job prompt i p g e a).1
    unfolding decide skip
    decide-Sound i p g e (true, b) v s =
        settle-Sound p b (set_breaker world p.name b g) _ v (set_breaker-Sound p.name b g v s)
    decide-Sound i p g e (false, b) v s =
        booked-Sound p.name _ circuit_open 0 (set_breaker world p.name b g)
          (set_breaker-Sound p.name b g v s)

    pub visit-Sound :
        (i : ℕ) (p : ProviderCfg) (g : Gateway D C) (e : E)
        → Sound g
        → Sound (visit world config run_id job prompt i p g e).1
    unfolding visit
    visit-Sound i p g e s =
        let (v, s') = for_provider-AllValid p.name g.breakers s in
        decide-Sound i p (record g { breakers = (for_provider p.name g.breakers).1 }) _ _
          (allows-IsValid _ _ v) s'

    decide-false :
        (i : ℕ) (p : ProviderCfg) (g : Gateway D C) (e : E) (b : CircuitBreaker)
        → decide world config run_id job prompt i p g e (false, b)
          ≡ skip world config run_id job prompt i p (set_breaker world p.name b g) e
    unfolding decide
    decide-false i p g e b = refl

    visit_lem :
        (i : ℕ) (p : ProviderCfg) (g : Gateway D C) (e : E)
        → visit world config run_id job prompt i p g e ≡ (
            let (b, breakers) = for_provider p.name g.breakers in
            let (now, e') = look world b e in
            decide world config run_id job prompt i p
              (record g { breakers = breakers })
              e'
              (allows now b))
    unfolding visit
    visit_lem i p g e = refl

    decide_blocked :
        (i : ℕ) (p : ProviderCfg) (g : Gateway D C) (e : E) (b : CircuitBreaker)
        → for_provider p.name g.breakers ≡ (b, g.breakers)
        → look world b e ≡ world.read_s e
        → allows (world.read_s e).0 b ≡ (false, b)
        → visit world config run_id job prompt i p g e
          ≡ skip world config run_id job prompt i p
              (set_breaker world p.name b g)
              (world.read_s e).1
    decide_blocked i p g e b known reads closed =
        visit_lem i p g e ∙ rw (known, reads, closed) (decide-false i p g _ b)

    -- A provider whose breaker is open, and whose cool-down has not passed, is not called: the round
    -- gives nothing, reads the clock and the time of its record only, and leaves the breaker.
    pub visit_blocked :
        (i : ℕ) (p : ProviderCfg) (g : Gateway D C) (e : E) (b : CircuitBreaker) (t : ℕ)
        → lookup p.name g.breakers.breakers ≡ some b
        → b.state ≡ opened
        → b.opened_at ≡ some t
        → (world.read_s e).0 < t + b.half_open_after_seconds
        → let (v, g', e') = visit world config run_id job prompt i p g e in
          (v ≡ miss (circuit_is_open p.name))
          × (e' ≡ (world.wall (world.read_s e).1).1)
          × (lookup p.name g'.breakers.breakers ≡ some b)
    visit_blocked i p g e b t here is_open since early =
        rw
          (decide_blocked i p g e b (for_provider_known p.name g.breakers b here)
            (look_opened b e t is_open since) (allows_early _ b t is_open since early))
          (skip_result i p (set_breaker world p.name b g) (world.read_s e).1 b
            (lookup-set_breaker p.name b g))
