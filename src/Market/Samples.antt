-- ===== src/Market/Samples.antt =====
-- A run for gold and for the rial, with numbers of four decimals.
mod Series
use tread_agent.Base.{
  ◌≡◌, ◌⊎◌, Some, refl, ◌↔◌, inl, inr, String, Bool, true, false, Option, none, some, List, [], ◌∷◌,
  All,
}
use tread_agent.Base.Dict.{Dict, lookup}
use tread_agent.Pipeline.Store.{scheduled, Ended, returned, raised}
use tread_agent.Rules.Models.{risk_on}
use tread_agent.Market.Numbers.{Between, zero_point, one_point}
use tread_agent.Market.Fixed.{
  ℤ, pos, negsuc, fixed, fixed_floats, fixed_arithmetic, fixed-IsOrdered,
}
use tread_agent.Market.Models.{
  greed, metal, fx, high, low, above_diverging, macd_bullish, Asset, GuardrailFlag, MarketStateRun,
  AssetFeatures, FeatureSet, AssetConfig, RunContext,
}
use tread_agent.Market.Scoring.Regimes.{classify}
use tread_agent.Market.Scoring.{
  ScoredAsset, ScoringResult, scored_of, score_asset, inputs_of, score_all, score,
}
use tread_agent.Market.Scoring.Bounds.{IsInRange, Immoderate, score-IsInRange}
use tread_agent.Market.Scoring.Insensitive.{score_insensitive}
use tread_agent.Market.Guardrails.{has_code, validate, sentiment_failed, synthesis_failed}
use tread_agent.Market.Guardrails.Publish.{Honest, Resolved, validate_publishes}
use tread_agent.Market.Assembly.{asset_of, candidate}
use tread_agent.Market.Orchestrator.{Engines, Settings, PipelineResult, compose, run_stages}
use tread_agent.Market.Messages.{WeightedNewsItem, SynthesisAsset}
use tread_agent.Market.Orchestrator.Unmoved.{Alike, changed, run_stages-Alike}
use tread_agent.Market.Orchestrator.Published.{RunEnds, run_stages-RunEnds}

abbrev gold_config : AssetConfig
gold_config = record { asset_class = metal; regime_sensitivity = high }

abbrev rial_config : AssetConfig
rial_config = record { asset_class = fx; regime_sensitivity = low }

abbrev configured : Dict AssetConfig
configured = ("GOLD", gold_config) ∷ ("USD_IRR", rial_config) ∷ []

abbrev weights : Dict ℤ
weights = ("trend", pos 5000) ∷ ("risk", pos 5000) ∷ []

abbrev gold_features : AssetFeatures ℤ
gold_features = record {
  indicators = some (record {
    rsi_14 = some (pos 600000);
    macd_state = some macd_bullish;
    ema_20_50 = some above_diverging;
    atr_pct = some (pos 20000);
    volume_ratio_20d = none;
  });
  changes = record { h6 = none; h24 = some (pos 10000); d7 = none; d30 = none };
  atr_pct = some (pos 20000);
  volume_ratio_20d = none;
}

abbrev rial_features : ℤ → AssetFeatures ℤ
rial_features change = record {
  indicators = none;
  changes = record { h6 = none; h24 = some change; d7 = none; d30 = none };
  atr_pct = none;
  volume_ratio_20d = none;
}

abbrev features_with : ℤ → FeatureSet ℤ
features_with change = record {
  run_id = "run-1";
  per_asset = ("GOLD", gold_features) ∷ ("USD_IRR", rial_features change) ∷ [];
  fear_greed_value = some (pos 600000);
  btc_dominance = none;
  total_market_cap_usd = none;
  event_features = [];
}

abbrev ctx : RunContext String
ctx = record {
  run_id = "run-1";
  run_sequence = 1;
  trigger_type = scheduled;
  trigger_detail = none;
  now = "2026-01-01T00:00:00Z";
  previous_state = none;
}

abbrev news : WeightedNewsItem ℤ
news = record {
  news_id = "n1";
  title = "Gold rises";
  evidence_text = "Gold rises";
  source = "wire";
  published_at = "2026-01-01T00:00:00Z";
  source_quality = pos 10000;
  recency_decay = pos 10000;
  asset_weights = ("GOLD", record { relevance = pos 10000; effective_weight = pos 10000 }) ∷ [];
  max_effective_weight = pos 10000;
}

-- The sentiment fails, the synthesis answers. The state of the world counts the calls.
abbrev engines : Engines ℤ String Bool (List String)
engines = record {
  compute = λ ingest c. returned (features_with (pos 20000));
  weigh = λ ingest c.
      returned (record { run_id = "run-1"; items = news ∷ []; weighting_versions = [] });
  analyze_sentiment = λ r e. (none, "sentiment" ∷ e);
  synthesize = λ r e. (
    some (("GOLD", record { human_summary_fa = "up"; novelty_flags = [] }) ∷ []),
    "synthesis" ∷ e,
  );
  price_snapshots = λ ingest. [];
}

abbrev settings : Settings ℤ
settings = record {
  assets = configured;
  mhi_weights = weights;
  mhi_version = "1";
  rules = [];
  default_half_life = pos 240000;
  rulebook_version = "1";
}

abbrev outcome : Ended (PipelineResult ℤ String) × List String
outcome =
    run_stages fixed fixed_floats fixed_arithmetic "1970-01-01T00:00:00Z" engines settings ctx true
      []

-- What the flags of the run say, and whether it is published.
abbrev summary_of : Ended (PipelineResult ℤ String) → List String × Bool × Bool
summary_of (raised x) = (x ∷ [], false, false)
summary_of (returned r) = (codes r.run.guardrail_flags, r.is_degraded, r.published)
  where
    codes : List GuardrailFlag → List String
    codes [] = []
    codes (f ∷ fs) = f.code ∷ codes fs

both_called : outcome.1 ≡ "synthesis" ∷ "sentiment" ∷ []
unfolding run_stages
both_called = refl

told_degraded : summary_of outcome.0 ≡ ("degraded_run" ∷ "sentiment_degraded" ∷ [], true, true)
unfolding run_stages has_code
told_degraded = refl

run_stages-RunEnds_example :
    RunEnds fixed fixed_floats fixed_arithmetic "1970-01-01T00:00:00Z" engines settings ctx true
      outcome.0
run_stages-RunEnds_example =
    run_stages-RunEnds fixed fixed_floats fixed_arithmetic "1970-01-01T00:00:00Z" engines settings
      ctx true []

score-IsInRange_example :
    let scored = score fixed weights configured (features_with (pos 20000)) none none in
    ((r : ScoringResult ℤ) × (scored ≡ returned r)
      × All (λ (e : String × ScoredAsset ℤ). IsInRange fixed e.1) r.per_asset
      × Between fixed (zero_point fixed) (one_point fixed) r.regime.confidence)
    ⊎ ((scored ≡ raised "ValidationError")
        × Some (Immoderate fixed none (features_with (pos 20000)).per_asset) configured)
score-IsInRange_example =
    score-IsInRange fixed fixed-IsOrdered weights configured (features_with (pos 20000)) none none

-- The scores of the features with this change of the rial.
abbrev scoring_of : ℤ → ScoringResult ℤ
unfolding score_all
scoring_of change = record {
  per_asset =
      ("GOLD", scored_of fixed weights none none "GOLD" gold_config gold_features)
      ∷ ("USD_IRR", scored_of fixed weights none none "USD_IRR" rial_config (rial_features change))
      ∷ [];
  regime =
      classify fixed (inputs_of fixed weights none none configured (features_with change).per_asset)
        [] none;
}

rising_calm :
    score fixed weights configured (features_with (pos 20000)) none none
    ≡ returned (scoring_of (pos 20000))
unfolding score scoring_of
rising_calm = refl

falling_calm :
    score fixed weights configured (features_with (negsuc 99999)) none none
    ≡ returned (scoring_of (negsuc 99999))
unfolding score scoring_of
falling_calm = refl

-- A sentiment of 2 is out of range.
immoderate :
    score fixed weights configured
      (features_with (pos 20000))
      none
      (some (("GOLD", pos 20000) ∷ []))
    ≡ raised "ValidationError"
unfolding score
immoderate = refl

score_insensitive_example : (scoring_of (pos 20000)).regime ≡ (scoring_of (negsuc 99999)).regime
unfolding lookup
score_insensitive_example =
    score_insensitive fixed weights configured (features_with (pos 20000))
      (features_with (negsuc 99999)) none none (scoring_of (pos 20000)) (scoring_of (negsuc 99999))
      refl (inr refl, (inl refl, tt)) rising_calm falling_calm

abbrev gold : Asset ℤ String
gold =
    asset_of fixed "1970-01-01T00:00:00Z" [] [] "GOLD" gold_config gold_features
      (scored_of fixed weights none none "GOLD" gold_config gold_features)

-- The base run, for gold.
abbrev base : MarketStateRun ℤ String
base =
    candidate fixed "1970-01-01T00:00:00Z" [] [] "1" "1" ctx (features_with (pos 20000))
      (scoring_of (pos 20000)) [] (gold ∷ [])
      (record {
        fear_greed = record { value = 60; label = greed };
        btc_dominance = pos 0;
        total_market_cap_usd = pos 0;
        recent_surprises = [];
      })

run_stages-Alike_example :
    Alike outcome.0
      (run_stages fixed fixed_floats fixed_arithmetic "1970-01-01T00:00:00Z"
        (changed fixed fixed_floats fixed_arithmetic "1970-01-01T00:00:00Z" settings engines
          (λ r e. (none, e)))
        settings
        ctx
        true
        []).0
run_stages-Alike_example =
    run_stages-Alike fixed fixed_floats fixed_arithmetic "1970-01-01T00:00:00Z" settings engines
      (λ r e. (none, e)) ctx true []

-- A base run is degraded, so the summary of the synthesis must not be in it.
abbrev summarized : MarketStateRun ℤ String
summarized = record base { assets = record gold { human_summary_fa = some "up" } ∷ [] }

blocked : (validate fixed summarized).publish ≡ false
unfolding validate sentiment_failed candidate asset_of synthesis_failed has_code
blocked = refl

validate_publishes_example : ((validate fixed summarized).publish ≡ true) ↔ (
    Honest (sentiment_failed summarized) (synthesis_failed summarized) summarized.assets
    × Resolved summarized.assets summarized.assets)
validate_publishes_example = validate_publishes fixed summarized
