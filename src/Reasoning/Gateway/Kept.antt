-- ===== src/Reasoning/Gateway/Kept.antt =====
-- What every round keeps, every run keeps, and a gateway of src/market_state_engine/reasoning/gateway.py
-- that serves one run after another.
use tread_agent.Base.{ℕ, suc, String, List, [], ◌∷◌}
use tread_agent.Reasoning.Types.{LlmJob, RenderedPrompt}
use tread_agent.Reasoning.Config.{ProviderCfg, ProvidersConfig}
use tread_agent.Reasoning.Gateway.Attempt.{World}
use tread_agent.Reasoning.Gateway.{
  Gateway, Answer, answered, DegradedMarker, Reason, Visit, hit, miss, visit, walk, run_chain, run,
  marker, all_exhausted, last_of,
}

module _ {E D C : Type 0} (world : World E D C) (config : ProvidersConfig)
    (Kept : Gateway D C → Type 0) where
  module _ (run_id : String) (job : LlmJob) (prompt : RenderedPrompt)
      (each : (i : ℕ) (p : ProviderCfg) (g : Gateway D C) (e : E)
        → Kept g
        → Kept (visit world config run_id job prompt i p g e).1) where
    after_visit-Kept :
        (v : Visit D) (g' : Gateway D C) (e' : E) (rest : Reason → Answer D × Gateway D C × E)
        → Kept g'
        → ((reason : Reason) → Kept (rest reason).1)
        → Kept
            (let y : Answer D × Gateway D C × E = elim v [
              | hit d ↦ (answered d, g', e')
              | miss reason ↦ rest reason
            ] in
              y).1
    after_visit-Kept (hit d) g' e' rest s ih = s
    after_visit-Kept (miss reason) g' e' rest s ih = ih reason

    walk-Kept :
        (i : ℕ) (ps : List ProviderCfg) (last : DegradedMarker) (g : Gateway D C) (e : E)
        → Kept g
        → Kept (walk world config run_id job prompt i ps last g e).1
    unfolding walk
    walk-Kept i [] last g e s = s
    walk-Kept i (p ∷ ps) last g e s =
        after_visit-Kept (visit world config run_id job prompt i p g e).0 _ _ _ (each i p g e s)
          (λ reason. walk-Kept (suc i) ps _ _ _ (each i p g e s))

    run_chain-Kept :
        (ps : List ProviderCfg) (g : Gateway D C) (e : E)
        → Kept g
        → Kept (run_chain world config run_id job prompt ps g e).1
    unfolding run_chain
    run_chain-Kept [] g e s = s
    run_chain-Kept (p ∷ ps) g e s =
        walk-Kept 0 (p ∷ ps) (marker world config run_id job prompt all_exhausted (last_of p ps)) g
          e s

    pub run-Kept :
        (g : Gateway D C) (e : E) → Kept g → Kept (run world config run_id job prompt g e).1
    unfolding run
    run-Kept g e s = run_chain-Kept _ g e s

-- What a run is asked for.
pub record Request : Type 0 where
  pub run_id : String
  pub job : LlmJob
  pub prompt : RenderedPrompt

module _ {E D C : Type 0} (world : World E D C) (config : ProvidersConfig) where
  -- The runs of one gateway, each from where the one before has left it.
  unfoldable pub serve : List Request → Gateway D C → E → Gateway D C × E
  serve [] g e = (g, e)
  serve (q ∷ qs) g e =
      let (answer, g', e') = run world config q.run_id q.job q.prompt g e in serve qs g' e'

  pub serve-Kept :
      (Kept : Gateway D C → Type 0)
      → ((q : Request) (i : ℕ) (p : ProviderCfg) (g : Gateway D C) (e : E)
          → Kept g
          → Kept (visit world config q.run_id q.job q.prompt i p g e).1)
      → (qs : List Request) (g : Gateway D C) (e : E) → Kept g
      → Kept (serve qs g e).0
  unfolding serve
  serve-Kept Kept each [] g e s = s
  serve-Kept Kept each (q ∷ qs) g e s =
      serve-Kept Kept each qs _ _
        (run-Kept world config Kept q.run_id q.job q.prompt (each q) g e s)
