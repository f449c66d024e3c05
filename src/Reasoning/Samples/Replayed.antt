-- ===== src/Reasoning/Samples/Replayed.antt =====
-- A recorded run of three attempts, replayed.
use tread_agent.Base.{
  ◌≡◌, ◌↔◌, refl, ℕ, String, true, false, none, some, Option, [], List, ◌∷◌, map, drop,
}
use tread_agent.Base.Dict.{lookup, insert}
use tread_agent.Reasoning.Types.{
  sentiment, success, timeout, error, Outcome, ok, err, provider_call_error, provider_timeout_error,
  RenderedPrompt,
}
use tread_agent.Base.Sort.{sort}
use tread_agent.Reasoning.Breaker.{prune, put_breaker}
use tread_agent.Reasoning.Config.{ProvidersConfig, enabled_providers, call_params_for}
use tread_agent.Reasoning.Retry.{run_retrying}
use tread_agent.Reasoning.Timeout.{run_timed}
use tread_agent.Reasoning.Gateway.Attempt.{CallRecord, World, try_provider, call}
use tread_agent.Reasoning.Gateway.{new_gateway, visit, run}
use tread_agent.Reasoning.Samples.Chains.{alpha}
use tread_agent.Reasoning.Samples.Runs.{config}
use tread_agent.Reasoning.Replay.{
  ReplayProvider, queues_from, new_replay, complete, same_value, field_diffs, zip_diffs,
  verify_replay,
}
use tread_agent.Reasoning.Replay.Served.{
  after_calls, answer_of, calls_with, recorded_for, complete-Replays,
}
use tread_agent.Reasoning.Replay.Rebuilt.{Clocks}
use tread_agent.Reasoning.Replay.Verified.{critical, verify_replay_matched}

abbrev attempt : ℕ → String → String → Outcome → Option String → CallRecord String ℕ
attempt i provider hash outcome response = record {
  run_id = "r1";
  llm_job = sentiment;
  attempt_index = i;
  provider = provider;
  model_id = "m";
  prompt_version = "v1";
  prompt_hash = hash;
  rendered_prompt = "p";
  response = response;
  response_hash = response;
  latency_ms = 5;
  input_tokens = some 3;
  output_tokens = none;
  estimated_cost = none;
  retries = 0;
  finish_reason = none;
  outcome = outcome;
  created_at = "now";
}

abbrev recorded : List (CallRecord String ℕ)
recorded =
    attempt 0 "alpha" "h" timeout none
    ∷ attempt 1 "beta" "h" success (some "data")
    ∷ attempt 2 "alpha" "h" success (some "more")
    ∷ []

abbrev replayed : List (CallRecord String ℕ)
replayed =
    attempt 0 "alpha" "h" timeout none
    ∷ attempt 1 "beta" "h" success (some "other")
    ∷ attempt 2 "alpha" "h" success (some "more")
    ∷ []

abbrev dumps : Option String → String
dumps none = "null"
dumps (some d) = d

abbrev prompt : RenderedPrompt
prompt = record { text = "p"; version = "v1"; prompt_hash = "h" }

-- alpha times out again, then answers, then has no record left.
replays_in_order :
    let p = new_replay "alpha" recorded in
    ((complete dumps p prompt).0 ≡ err (provider_timeout_error "alpha" 0 0))
    × ((complete dumps (after_calls dumps (prompt ∷ prompt ∷ []) p) prompt).0
        ≡ err (provider_call_error "alpha"))
unfolding complete after_calls new_replay queues_from lookup insert
replays_in_order = (refl, refl)

-- Another response is one difference.
other_response : (verify_replay recorded replayed).matched ≡ false
unfolding verify_replay zip_diffs field_diffs same_value
other_response = refl

verify_replay_matched_example :
    ((verify_replay recorded replayed).matched ≡ true)
    ↔ (map critical recorded ≡ map critical replayed)
verify_replay_matched_example = verify_replay_matched recorded replayed

complete-Replays_example :
    (complete dumps (after_calls dumps (prompt ∷ []) (new_replay "alpha" recorded)) prompt).0
    ≡ answer_of dumps "alpha"
        (drop (calls_with "h" (prompt ∷ [])) (recorded_for "alpha" "h" recorded))
complete-Replays_example = complete-Replays dumps "alpha" recorded (prompt ∷ []) prompt

-- With one retry, the recorded timeout of alpha is retried against an empty queue: the replayed call is
-- recorded as an error.
abbrev replaying : World (ReplayProvider String ℕ) String ℕ
replaying = record {
  read_ms = λ e. (0, e);
  read_s = λ e. (0, e);
  wall = λ e. ("now", e);
  sleep = λ ms e. e;
  bound = λ _. true;
  complete = λ name prompt params e. complete dumps e prompt;
  parse_json = λ text. ok text;
  validate = λ job d. ok tt;
  content_hash = λ d. d;
  estimate = none;
  digest8 = λ _. 0;
}

abbrev only_alpha : ProvidersConfig
only_alpha = record config { providers = alpha ∷ [] }

retried_timeout :
    let start = new_replay "alpha" (attempt 0 "alpha" "h" timeout none ∷ []) in
    let fresh = new_gateway replaying only_alpha true in
    map
      (λ (r : CallRecord String ℕ). r.outcome)
      (run replaying only_alpha "r1" sentiment prompt fresh start).1.records
    ≡ error ∷ []
unfolding run sort visit lookup insert prune new_gateway enabled_providers try_provider run_retrying
    run_timed call put_breaker call_params_for complete new_replay queues_from
retried_timeout = refl

-- A recorded run in which beta fails and alpha answers, and clocks that stand still.
abbrev called_once : ProvidersConfig
called_once = record config { defaults = record (config.defaults) { retries = 0 } }

abbrev still : Clocks (Unit {0})
still = record {
  read_ms = λ f. (0, f);
  read_s = λ f. (0, f);
  wall = λ f. ("later", f);
  sleep = λ ms f. f;
}
