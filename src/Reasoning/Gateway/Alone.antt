-- ===== src/Reasoning/Gateway/Alone.antt =====
-- What src/market_state_engine/reasoning/gateway.py does to the breakers, as calls on the breaker of one
-- provider.
use tread_agent.Base.{
  ◌≡◌, refl, ap, ◌∙◌, inl, inr, ℕ, String, Bool, true, false, not, ◌&&◌, is_some, List, [], ◌∷◌,
  ◌++◌, All, or_else, str_eq, eq_refl, arith, if◌then◌else◌, Bool-cases, Option-cases,
}
use tread_agent.Base.Dict.{lookup, lookup-insert}
use tread_agent.Reasoning.Types.{Outcome, circuit_open}
use tread_agent.Reasoning.Health.{is_success}
use tread_agent.Reasoning.Breaker.{
  CircuitBreaker, CircuitBreakerRegistry, is_opened, new_breaker, maybe_half_open, record_failure,
  for_provider, put_breaker, Call, polled, succeeded as reported_success,
  failed as reported_failure, step, run,
}
use tread_agent.Reasoning.Breaker.Decided.{results}
use tread_agent.Reasoning.Gateway.Attempt.{World, CallRecord}
use tread_agent.Reasoning.Gateway.{Gateway, emit, note_health, set_breaker, look, fail_breaker}

-- The breaker that the registry has for the name, or would make.
abbrev pub breaker_of : String → CircuitBreakerRegistry → CircuitBreaker
breaker_of name reg = or_else (lookup name reg.breakers) (new_breaker reg.cfg)

abbrev pub is_skip : Outcome → Bool
is_skip circuit_open = true
is_skip _ = false

-- Whether the calls of the provider succeeded, for those that were made, in order.
abbrev pub results_in : {D C : Type 0} → String → List (CallRecord D C) → List Bool
results_in name [] = []
results_in name (r ∷ rs) =
    if str_eq r.provider name && not (is_skip r.outcome)
    then is_success r.outcome ∷ results_in name rs
    else results_in name rs

breaker_of-put :
    (name other : String) (b : CircuitBreaker) (reg : CircuitBreakerRegistry)
    → breaker_of other (put_breaker name b reg)
      ≡ (if str_eq name other then b else breaker_of other reg)
unfolding put_breaker
breaker_of-put name other b reg = elim (Bool-cases (str_eq name other)) [
  | inl h ↦ rw (lookup-insert name other b reg.breakers, h) refl
  | inr h ↦ rw (lookup-insert name other b reg.breakers, h) refl
]

module _ {E D C : Type 0} (world : World E D C) where
  -- The time is one that the clock of the breakers gives.
  abbrev pub Read : ℕ → Type 0
  Read t = (e : E) × ((world.read_s e).0 ≡ t)

  abbrev pub IsRead : Call → Type 0
  IsRead (polled now) = Read now
  IsRead reported_success = Unit
  IsRead (reported_failure now later) = Read now × Read later

  -- What the test of a breaker makes of it is a poll at a time that was read, or nothing.
  pub look-polls :
      (b : CircuitBreaker) (e : E)
      → (cs : List Call) × (maybe_half_open (look world b e).0 b ≡ run b cs)
        × All IsRead cs
        × (results cs ≡ [])
  unfolding look maybe_half_open run step
  look-polls b e = elim (Bool-cases (is_opened b.state && is_some b.opened_at)) [
    | inl h ↦ (polled (world.read_s e).0 ∷ [], rw h refl, ((e, refl), tt), refl)
    | inr h ↦ ([], ground (arith, h), tt, refl)
  ]

  pub fail_breaker-fails :
      (b : CircuitBreaker) (e : E)
      → (now later : ℕ) × ((fail_breaker world b e).0 ≡ record_failure now later b)
        × Read now
        × Read later
  unfolding fail_breaker look record_failure maybe_half_open
  fail_breaker-fails b e = elim (Bool-cases (is_opened b.state && is_some b.opened_at)) [
    | inl h ↦
        ((world.read_s e).0, (world.read_s (world.read_s e).1).0, rw h refl, (e, refl), (_, refl))
    | inr h ↦ ((world.read_s e).0, (world.read_s e).0, ground (arith, h), (e, refl), (e, refl))
  ]

  -- The gateway so far in the round of the name: the breakers of others are as they were in `g₀`.
  pub record IsUnder (name : String) (g₀ g : Gateway D C) : Type 0 where
    pub recording : g.recording ≡ true
    pub records : g.records ≡ g₀.records
    pub cfg : g.breakers.cfg ≡ g₀.breakers.cfg
    pub others :
        (other : String)
        → str_eq name other ≡ false
        → breaker_of other g.breakers ≡ breaker_of other g₀.breakers

  -- A round adds one record, and is some calls on the breaker of its provider: their times are read, and
  -- their results are those of the record.
  pub record IsRound (name : String) (g₀ g : Gateway D C) : Type 0 where
    pub note : CallRecord D C
    pub calls : List Call
    pub read : All IsRead calls
    pub provider : note.provider ≡ name
    pub agree : results calls ≡ results_in name (note ∷ [])
    pub recording : g.recording ≡ true
    pub records : g.records ≡ g₀.records ++ note ∷ []
    pub cfg : g.breakers.cfg ≡ g₀.breakers.cfg
    pub own : breaker_of name g.breakers ≡ run (breaker_of name g₀.breakers) calls
    pub others :
        (other : String)
        → str_eq name other ≡ false
        → breaker_of other g.breakers ≡ breaker_of other g₀.breakers

  pub set_breaker-IsUnder :
      (name : String) (b : CircuitBreaker) (g₀ g : Gateway D C)
      → IsUnder name g₀ g
      → IsUnder name g₀ (set_breaker world name b g)
  unfolding set_breaker put_breaker
  set_breaker-IsUnder name b g₀ g u = record {
    recording = u.recording;
    records = u.records;
    cfg = u.cfg;
    others = λ other h. breaker_of-put name other b g.breakers ∙ rw h (u.others other h);
  }

  pub closes :
      (name : String) (b : CircuitBreaker) (g₀ g : Gateway D C) (r : CallRecord D C) (o : Outcome)
      (l : ℕ) (calls : List Call)
      → IsUnder name g₀ g
      → All IsRead calls
      → r.provider ≡ name
      → results calls ≡ results_in name (r ∷ [])
      → b ≡ run (breaker_of name g₀.breakers) calls
      → IsRound name g₀ (set_breaker world name b (note_health world name o l (emit world r g)))
  unfolding set_breaker put_breaker note_health emit
  closes name b g₀ g r o l calls u read provider agree reached = rw u.recording (record {
    note = r;
    calls = calls;
    read = read;
    provider = provider;
    agree = agree;
    recording = refl;
    records = ap (λ rs. rs ++ r ∷ []) u.records;
    cfg = u.cfg;
    own = breaker_of-put name name b g.breakers ∙ rw (eq_refl name) reached;
    others = λ other h. breaker_of-put name other b g.breakers ∙ rw h (u.others other h);
  })

  pub emit-set_breaker :
      (name : String) (b : CircuitBreaker) (g : Gateway D C) (r : CallRecord D C)
      → set_breaker world name b (emit world r g) ≡ emit world r (set_breaker world name b g)
  unfolding emit set_breaker
  emit-set_breaker name b g r = elim (Bool-cases g.recording) [
    | inl h ↦ rw h refl
    | inr h ↦ rw h refl
  ]

  pub for_provider-IsUnder :
      (name : String) (g : Gateway D C)
      → g.recording ≡ true
      → ((for_provider name g.breakers).0 ≡ breaker_of name g.breakers)
        × IsUnder name g (record g { breakers = (for_provider name g.breakers).1 })
  unfolding for_provider put_breaker
  for_provider-IsUnder name g rec = elim (Option-cases (lookup name g.breakers.breakers)) [
    | inl e ↦
        rw (e, for_provider)
          (
            refl,
            record {
              recording = rec;
              records = refl;
              cfg = refl;
              others = λ other h.
                  breaker_of-put name other (new_breaker g.breakers.cfg) g.breakers ∙ rw h refl;
            },
          )
    | inr (b, e) ↦
        rw (e, for_provider)
          (refl, record { recording = rec; records = refl; cfg = refl; others = λ other h. refl })
  ]
