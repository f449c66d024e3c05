-- ===== src/Reasoning/Samples/Runs.antt =====
-- A gateway over two providers, of which the first fails.
use tread_agent.Base.{
  ℕ, ◌+◌, ◌/◌, ◌≡◌, refl, String, true, false, none, some, List, [], ◌∷◌, map, arith, str_eq,
  if◌then◌else◌,
}
use tread_agent.Base.Dict.{lookup, insert}
use tread_agent.Base.Sort.{sort}
use tread_agent.Reasoning.Types.{
  sentiment, synthesis, success, error, Result, ok, err, provider_call_error, RenderedPrompt,
  CallParams, RawProviderResult,
}
use tread_agent.Reasoning.Breaker.{CircuitBreaker, opened, prune, put_breaker, record_failure}
use tread_agent.Reasoning.Config.{
  ProvidersConfig, validate_config, enabled_providers, call_params_for,
}
use tread_agent.Reasoning.Retry.{run_retrying}
use tread_agent.Reasoning.Timeout.{run_timed}
use tread_agent.Reasoning.Gateway.Attempt.{World, try_provider, call}
use tread_agent.Reasoning.Gateway.{
  Gateway, answered, miss, circuit_is_open, new_gateway, visit, chain_of, run, no_chain,
}
use tread_agent.Reasoning.Gateway.Trace.{Walks, run-Walks}
use tread_agent.Reasoning.Gateway.Timely.{Timely, try_provider-Timely}
use tread_agent.Reasoning.Gateway.Bookkeeping.{AllValid, visit_blocked}
use tread_agent.Reasoning.Gateway.Kept.{Request, serve}
use tread_agent.Reasoning.Gateway.Alone.{breaker_of, results_in}
use tread_agent.Reasoning.Gateway.Serving.{AllAlone, serve-AllAlone, serve-AllValid}
use tread_agent.Reasoning.Samples.Chains.{alpha, beta, backoff}

abbrev pub config : ProvidersConfig
config = record {
  version = "1";
  routing = record { strategy = "priority"; degrade_after_all_fail = true };
  defaults = record {
    temperature = 0;
    max_tokens = 1024;
    timeout_seconds = 20;
    retries = 1;
    backoff = backoff;
    circuit_breaker = record {
      failure_threshold = 2;
      window_seconds = 100;
      half_open_after_seconds = 60;
    };
  };
  providers = alpha ∷ beta ∷ [];
}

-- The state is the time in milliseconds. beta fails after 5 ms, alpha answers after 7 ms.
abbrev pub complete : String → RenderedPrompt → CallParams → ℕ → Result RawProviderResult × ℕ
complete name prompt params t =
    if str_eq name "beta" then (err (provider_call_error "down"), t + 5) else (
      ok (record {
        text = "data";
        input_tokens = some 3;
        output_tokens = none;
        finish_reason = none;
      }),
      t + 7,
    )

abbrev pub world : World ℕ String ℕ
world = record {
  read_ms = λ t. (t, t);
  read_s = λ t. (t / 1000, t);
  wall = λ t. ("now", t);
  sleep = λ ms t. t + ms;
  bound = λ _. true;
  complete = complete;
  parse_json = λ text. ok text;
  validate = λ job d. ok tt;
  content_hash = λ d. d;
  estimate = none;
  digest8 = λ _. 0;
}

abbrev prompt : RenderedPrompt
prompt = record { text = "p"; version = "v1"; prompt_hash = "h" }

abbrev fresh : Gateway String ℕ
unfolding new_gateway
fresh = new_gateway world config true

failover :
    let (answer, g, t) = run world config "r1" sentiment prompt fresh 0 in
    (answer ≡ answered "data")
    × (map (λ r. r.outcome) g.records ≡ error ∷ success ∷ [])
    × (map (λ r. r.latency_ms) g.records ≡ 0 ∷ 7 ∷ [])
    × (t ≡ 417)
unfolding run sort visit lookup insert prune new_gateway enabled_providers try_provider run_retrying
    run_timed call put_breaker call_params_for
failover = (refl, refl, refl, refl)

run-Walks_example :
    Walks world config "r1" sentiment prompt 0
      (chain_of world config "r1" sentiment prompt)
      (no_chain sentiment)
      fresh
      (run world config "r1" sentiment prompt fresh 0)
run-Walks_example = run-Walks world config "r1" sentiment prompt fresh 0

abbrev requests : List Request
requests =
    record { run_id = "r1"; job = sentiment; prompt = prompt }
    ∷ record { run_id = "r1"; job = synthesis; prompt = prompt }
    ∷ record { run_id = "r2"; job = sentiment; prompt = prompt }
    ∷ []

-- beta fails twice, trips, and is skipped in the third run.
served :
    let g = (serve world config requests fresh 0).0 in
    (results_in "beta" g.records ≡ false ∷ false ∷ [])
    × (results_in "alpha" g.records ≡ true ∷ true ∷ true ∷ [])
    × ((breaker_of "beta" g.breakers).state ≡ opened)
unfolding serve run sort visit lookup insert prune new_gateway enabled_providers try_provider
    run_retrying run_timed call put_breaker call_params_for record_failure
served = (refl, refl, refl)

serve-AllAlone_example :
    AllAlone world config (serve world config requests (new_gateway world config true) 0).0
serve-AllAlone_example = serve-AllAlone world config requests 0

config_accepted : validate_config config ≡ none
unfolding validate_config
config_accepted = refl

serve-AllValid_example :
    AllValid (serve world config requests (new_gateway world config true) 0).0.breakers
serve-AllValid_example = serve-AllValid world config true requests 0 config_accepted

abbrev tripped : CircuitBreaker
tripped = record {
  cfg = config.defaults.circuit_breaker;
  failures = [];
  state = opened;
  opened_at = some 4;
}

abbrev blocking : Gateway String ℕ
blocking = record {
  breakers = record { cfg = config.defaults.circuit_breaker; breakers = ("beta", tripped) ∷ [] };
  health = record { window = 50; by_provider = [] };
  recording = true;
  records = [];
}

beta_known : lookup "beta" blocking.breakers.breakers ≡ some tripped
unfolding lookup
beta_known = refl

visit_blocked_example :
    let (v, g, t) = visit world config "r1" sentiment prompt 0 beta blocking 9000 in
    (v ≡ miss (circuit_is_open "beta"))
    × (t ≡ 9000)
    × (lookup "beta" g.breakers.breakers ≡ some tripped)
visit_blocked_example =
    visit_blocked world config "r1" sentiment prompt 0 beta blocking 9000 tripped 4 beta_known refl
      refl (omega arith)

try_provider-Timely_example :
    Timely world config "r1" sentiment prompt alpha
      (try_provider world config "r1" sentiment prompt 0 alpha 0).0
try_provider-Timely_example = try_provider-Timely world config "r1" sentiment prompt 0 alpha 0
