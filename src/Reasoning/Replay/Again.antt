-- ===== src/Reasoning/Replay/Again.antt =====
-- One round of the chain of src/market_state_engine/reasoning/gateway.py, replayed.
use tread_agent.Base.{
  ◌≡◌, sym, ap, ◌∙◌, ℕ, suc, String, false, Option, some, List, [], ◌∷◌, ◌++◌, map, append_assoc,
  str_eq, arith,
}
use tread_agent.Base.Dict.{Dict, insert, lookup-insert}
use tread_agent.Reasoning.Types.{LlmJob, Raised, ok, RenderedPrompt}
use tread_agent.Reasoning.Breaker.{CircuitBreaker}
use tread_agent.Reasoning.Config.{ProviderCfg, ProvidersConfig}
use tread_agent.Reasoning.Gateway.Attempt.{World, CallRecord, Tried, succeeded, failed}
use tread_agent.Reasoning.Gateway.{
  Gateway, Answer, answered, Reason, Visit, hit, miss, fail_breaker, look, walk, marker,
}
use tread_agent.Reasoning.Gateway.Fresh.{Noted, Rounds}
use tread_agent.Reasoning.Replay.{ReplayProvider}
use tread_agent.Reasoning.Replay.Rebuilt.{Clocks, IsSteady, Replaying, replay_world}
use tread_agent.Reasoning.Replay.Verified.{critical, cons-same}
use tread_agent.Reasoning.Replay.Repeated.{Ready, Repeats}
use tread_agent.Reasoning.Replay.Told.{Told, data_of, told, hit-injective}

module _ {E D C F : Type 0} (world : World E D C) (config : ProvidersConfig) (run_id : String)
    (job : LlmJob) (prompt : RenderedPrompt) (dumps : Option D → String) (clocks : Clocks F)
    (all : List (CallRecord D C))
    (parses : (d : D) → world.parse_json (dumps (some d)) ≡ ok d) where
  abbrev pub again : World (Replaying D C F) D C
  again = replay_world dumps world clocks all

  abbrev pub IsReady : Dict (ReplayProvider D C) → CallRecord D C → Type 0
  IsReady = Ready world config run_id job prompt dumps clocks all

  abbrev pub Steady : ProviderCfg → Type 0
  Steady = IsSteady config job clocks

  fail_breaker-adapters :
      (b : CircuitBreaker) (s : Replaying D C F) → (fail_breaker again b s).1.0 ≡ s.0
  unfolding fail_breaker look replay_world
  fail_breaker-adapters b s = ground arith

  pub Ready-insert :
      (name : String) (after : ReplayProvider D C) (adapters : Dict (ReplayProvider D C))
      (r : CallRecord D C)
      → str_eq name r.provider ≡ false
      → IsReady adapters r
      → IsReady (insert name after adapters) r
  Ready-insert name after adapters r h ready = record {
    adapter = ready.adapter;
    bound = ready.bound;
    placed = lookup-insert name r.provider after adapters ∙ rw h ready.placed;
    named = ready.named;
    rest = ready.rest;
    queued = ready.queued;
  }

  -- What is left of a walk after the round of `p`.
  abbrev pub goes_on :
      {E D C : Type 0}
      → World E D C
      → ℕ
      → ProviderCfg
      → List ProviderCfg
      → Visit D × Gateway D C × E
      → Answer D × Gateway D C × E
  goes_on w i p ps (v, g, e) = elim v [
    | hit d ↦ (answered d, g, e)
    | miss reason ↦
        walk w config run_id job prompt (suc i) ps (marker w config run_id job prompt reason p) g e
  ]

  abbrev pub Again :
      Gateway D C
      → List (CallRecord D C)
      → Told D
      → Answer D × Gateway D C × Replaying D C F
      → Type 0
  Again h rs answer out =
      (rs' : List (CallRecord D C)) × (out.1.records ≡ h.records ++ rs')
      × (map critical rs ≡ map critical rs')
      × (answer ≡ told out.0)

  pub hit-Again :
      (i : ℕ) (p : ProviderCfg) (ps : List ProviderCfg) (h : Gateway D C) (d : D)
      (r : CallRecord D C) (t : Tried D C × Replaying D C F)
      (v : Visit D × Gateway D C × Replaying D C F)
      → Repeats world config run_id job prompt dumps clocks all (succeeded d r) t.0
      → Rounds again config run_id job prompt p h t v
      → Again h (r ∷ []) (data_of d) (goes_on again i p ps v)
  hit-Again i p ps h d r (failed r' x, s) v same rounds = absurd same
  hit-Again i p ps h d r (succeeded d' r', s) (miss reason, h', s') same rounds =
      absurd (let q = rounds.0 in cc)
  hit-Again i p ps h d r (succeeded d' r', s) (hit d'', h', s') same (q, noted, _) =
      (r' ∷ [], noted.records, ap (λ c. c ∷ []) same.1, ap data_of (same.0 ∙ hit-injective (sym q)))

  pub miss-Again :
      (i : ℕ) (p : ProviderCfg) (ps : List ProviderCfg) (h : Gateway D C) (r : CallRecord D C)
      (x : Raised) (rest : List (CallRecord D C)) (answer : Told D) (after : ReplayProvider D C)
      (s : Replaying D C F) (t : Tried D C × Replaying D C F)
      (v : Visit D × Gateway D C × Replaying D C F)
      → Repeats world config run_id job prompt dumps clocks all (failed r x) t.0
      → t.1.0 ≡ insert p.name after s.0
      → Rounds again config run_id job prompt p h t v
      → ((reason : Reason) (h' : Gateway D C) (s' : Replaying D C F) (r' : CallRecord D C)
          → Noted again config run_id job prompt p.name r' h h'
          → s'.0 ≡ insert p.name after s.0
          → Again h' rest answer (
              walk again config run_id job prompt
                (suc i)
                ps
                (marker again config run_id job prompt reason p)
                h'
                s'))
      → Again h (r ∷ rest) answer (goes_on again i p ps v)
  miss-Again i p ps h r x rest answer after s (succeeded d r', s₁) v same put rounds k = absurd same
  miss-Again i p ps h r x rest answer after s (failed r' x', s₁) (hit d, h', s') same put rounds k =
      absurd (let q = rounds.0 in cc)
  miss-Again i p ps h r x rest answer after s (failed r' x', s₁) (miss reason, h', s') same put
        (q, noted, (b, e)) k =
      let (rs', records, criticals, told_same) =
        k reason h' s' r' noted
          (ap (λ (z : Replaying D C F). z.0) e ∙ fail_breaker-adapters b s₁ ∙ put) in
      (
        r' ∷ rs',
        records ∙ ap (λ z. z ++ rs') noted.records ∙ append_assoc h.records (r' ∷ []) rs',
        cons-same same criticals,
        told_same,
      )
