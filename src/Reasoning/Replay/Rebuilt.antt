-- ===== src/Reasoning/Replay/Rebuilt.antt =====
-- src/market_state_engine/reasoning/integration.py: the gateway that `build_replay_gateway` wires, with
-- the replay providers of recorded calls as its adapters.
use tread_agent.Base.{ℕ, ◌+◌, ◌*◌, ◌≤◌, ◌≡◌, String, Option, none, some, List, is_some, or_else}
use tread_agent.Base.Dict.{Dict, lookup, insert}
use tread_agent.Reasoning.Types.{
  LlmJob, Result, err, provider_call_error, RenderedPrompt, CallParams, RawProviderResult,
}
use tread_agent.Reasoning.Config.{ProviderCfg, ProvidersConfig, call_params_for}
use tread_agent.Reasoning.Gateway.Attempt.{World, CallRecord}
use tread_agent.Reasoning.Replay.{ReplayProvider, complete, build_replay_adapters}

-- The clocks of a replay, on a state `F` of their own.
pub record Clocks (F : Type 0) : Type 0 where
  pub read_ms : F → ℕ × F
  pub read_s : F → ℕ × F
  pub wall : F → String × F
  pub sleep : ℕ → F → F

-- The provider is called once, and the clocks stand well within its deadline.
pub record IsSteady {F : Type 0} (config : ProvidersConfig) (job : LlmJob) (clocks : Clocks F)
    (p : ProviderCfg) : Type 0 where
  pub once : or_else p.retries config.defaults.retries ≡ 0
  pub quick :
      (f : F)
      → (clocks.read_ms (clocks.read_ms f).1).0
        ≤ (clocks.read_ms f).0 + (call_params_for config p job).timeout_seconds * 1000

-- The adapters, which their calls change, and the state of the clocks.
abbrev pub Replaying : (D C F : Type 0) → Type 0
Replaying D C F = Dict (ReplayProvider D C) × F

abbrev pub on_clock : {D C F A : Type 0} → (F → A × F) → Replaying D C F → A × Replaying D C F
on_clock read s = let (a, f) = read s.1 in (a, (s.0, f))

module _ {D C F : Type 0} (dumps : Option D → String) where
  abbrev pub answer_with :
      String
      → RenderedPrompt
      → Replaying D C F
      → Option (ReplayProvider D C)
      → Result RawProviderResult × Replaying D C F
  answer_with name prompt s none = (err (provider_call_error name), s)
  answer_with name prompt s (some p) =
      let (answer, p') = complete dumps p prompt in (answer, (insert name p' s.0, s.1))

  -- `adapter.complete(prompt, params)` for the adapter of the name
  unfoldable pub complete_by :
      String
      → RenderedPrompt
      → CallParams
      → Replaying D C F
      → Result RawProviderResult × Replaying D C F
  unfolding lookup insert complete
  complete_by name prompt params s = answer_with name prompt s (lookup name s.0)

  -- `build_replay_gateway`: the validator, the hashes and the prices are those of `world`.
  unfoldable pub replay_world :
      {E : Type 0} → World E D C → Clocks F → List (CallRecord D C) → World (Replaying D C F) D C
  unfolding complete_by lookup build_replay_adapters
  replay_world world clocks records = record {
    read_ms = on_clock clocks.read_ms;
    read_s = on_clock clocks.read_s;
    wall = on_clock clocks.wall;
    sleep = λ ms s. (s.0, clocks.sleep ms s.1);
    bound = λ name. is_some (lookup name (build_replay_adapters records));
    complete = complete_by;
    parse_json = world.parse_json;
    validate = world.validate;
    content_hash = world.content_hash;
    estimate = world.estimate;
    digest8 = world.digest8;
  }
