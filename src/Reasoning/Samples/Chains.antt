-- ===== src/Reasoning/Samples/Chains.antt =====
-- Two providers in a configuration: the order of the chain, retries and deadlines.
use tread_agent.Base.{ℕ, ◌+◌, ◌≡◌, refl, String, true, none, [], ◌∷◌, leb, if◌then◌else◌}
use tread_agent.Base.Sort.{sort}
use tread_agent.Reasoning.Types.{Result, ok, err, provider_call_error}
use tread_agent.Reasoning.Config.{ProviderCfg, BackoffCfg, validate_providers}
use tread_agent.Reasoning.Config.Chain.{validate_providers-Nodup}
use tread_agent.Reasoning.Router.{order}
use tread_agent.Reasoning.Router.Order.{IsChain, order-IsChain}
use tread_agent.Reasoning.Retry.{RetryPolicy, run_retrying}
use tread_agent.Reasoning.Retry.Ends.{Ends, run_retrying-Ends}

abbrev pub provider : String → ℕ → ℕ → ProviderCfg
provider name priority weight = record {
  name = name;
  enabled = true;
  priority = priority;
  weight = weight;
  models = record { sentiment_model = "m1"; synthesis_model = "m2" };
  temperature = none;
  max_tokens = none;
  timeout_seconds = none;
  retries = none;
}

abbrev pub alpha : ProviderCfg
alpha = provider "alpha" 2 0

abbrev pub beta : ProviderCfg
beta = provider "beta" 1 3

abbrev pub gamma : ProviderCfg
gamma = provider "gamma" 2 1

abbrev pub backoff : BackoffCfg
backoff = record { type = "exponential"; base_ms = 400; max_ms = 1000 }

-- beta goes first by priority, gamma has the fraction's weight.
order_priority :
    order "priority" (record { num = 3; den = 4 }) (gamma ∷ alpha ∷ beta ∷ [])
    ≡ beta ∷ alpha ∷ gamma ∷ []
unfolding order sort
order_priority = refl

order_weighted :
    order "weighted" (record { num = 3; den = 4 }) (gamma ∷ alpha ∷ beta ∷ [])
    ≡ gamma ∷ beta ∷ alpha ∷ []
unfolding order sort
order_weighted = refl

all_valid : validate_providers (gamma ∷ alpha ∷ beta ∷ []) ≡ none
unfolding validate_providers
all_valid = refl

order-IsChain_example :
    IsChain
      (gamma ∷ alpha ∷ beta ∷ [])
      (order "weighted" (record { num = 3; den = 4 }) (gamma ∷ alpha ∷ beta ∷ []))
order-IsChain_example =
    order-IsChain "weighted" (record { num = 3; den = 4 }) (gamma ∷ alpha ∷ beta ∷ [])
      (validate_providers-Nodup (gamma ∷ alpha ∷ beta ∷ []) all_valid)

abbrev policy : RetryPolicy
policy = record { retries = 2; backoff = backoff }

-- The state is the time; calls fail before the time 1000.
abbrev flaky : ℕ → Result ℕ × ℕ
flaky t = if leb 1000 t then (ok t, t + 5) else (err (provider_call_error "x"), t + 5)

retried : run_retrying policy flaky (λ ms t. t + ms) 0 ≡ (ok (1210, 2), 1215)
unfolding run_retrying
retried = refl

run_retrying-Ends_example :
    Ends policy flaky (λ ms t. t + ms) 2 0 0 (run_retrying policy flaky (λ ms t. t + ms) 0)
run_retrying-Ends_example = run_retrying-Ends policy flaky (λ ms t. t + ms) 0
