-- ===== src/Reasoning/Replay/Reproduced.antt =====
-- A run of src/market_state_engine/reasoning/gateway.py and its replay, as verify_replay of replay.py
-- compares them.
use tread_agent.Base.{◌≡◌, String, Bool, true, Option, List, ◌∷◌, any, str_eq}
use tread_agent.Reasoning.Types.{LlmJob, RenderedPrompt}
use tread_agent.Reasoning.Config.{ProvidersConfig}
use tread_agent.Reasoning.Gateway.Attempt.{World, CallRecord}
use tread_agent.Reasoning.Gateway.{Gateway, Answer, new_gateway, run}
use tread_agent.Reasoning.Replay.{build_replay_adapters}
use tread_agent.Reasoning.Replay.Served.{recorded_for}
use tread_agent.Reasoning.Replay.Rebuilt.{Clocks, Replaying, replay_world}

-- Whether the name is among the names, in the order in which a dict compares them.
abbrev has_name : String → List String → Bool
has_name name names = any (λ n. str_eq n name) names

module _ {D C : Type 0} where
  -- The record is the first of its provider for its prompt.
  abbrev First : List (CallRecord D C) → CallRecord D C → Type 0
  First rs r =
      (rest : List (CallRecord D C)) × (recorded_for r.provider r.prompt_hash rs ≡ r ∷ rest)

module _ {E D C F : Type 0} (world : World E D C) (config : ProvidersConfig) (run_id : String)
    (job : LlmJob) (prompt : RenderedPrompt) (dumps : Option D → String) (clocks : Clocks F) where
  -- A run of a new gateway, and the run of a new gateway over the replay providers of its records, with
  -- the same configuration, run id, job and prompt.
  abbrev pub recorded_run : E → Answer D × Gateway D C × E
  recorded_run e = run world config run_id job prompt (new_gateway world config true) e

  abbrev pub replayed_run : List (CallRecord D C) → F → Answer D × Gateway D C × Replaying D C F
  replayed_run records f =
      let again = replay_world dumps world clocks records in
      run again config run_id job prompt (new_gateway again config true)
        (build_replay_adapters records, f)
