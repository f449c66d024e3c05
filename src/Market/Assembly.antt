-- ===== src/Market/Assembly.antt =====
-- src/market_state_engine/assembly/deterministic_state.py: the document of a run before the language
-- models have answered.
pub mod Honest
use tread_agent.Base.{
  ℕ, ◌≤◌, String, Bool, true, false, not, Option, none, some, List, [], ◌∷◌, ◌++◌, map, select, leb,
  is_some, or_else, str_eq, if◌then◌else◌,
}
use tread_agent.Base.Dict.{Dict, lookup}
use tread_agent.Pipeline.Store.{TriggerType, scheduled, event, Ended, returned, raised}
use tread_agent.Rules.Models.{is_neutral}
use tread_agent.Rules.Activations.{EventFeature, Activation, or_nothing}
use tread_agent.Market.Numbers.{Numbers, Truncated, not_finite, below_zero, whole}
use tread_agent.Market.Ranges.{and_then, accepted, asset_fits, regime_fits, global_fits}
use tread_agent.Market.Models.{
  warning, Currency, usd, irt, FearGreedLabel, extreme_fear, fear, fear_greed_neutral, greed,
  extreme_greed, Regime, Price, Changes, Indicators, Scores, RuleActivation, CausalLink, Asset,
  GuardrailFlag, FearGreed, RecentSurprise, Global, Versions, TriggerDetail, MarketStateRun,
  AssetFeatures, FeatureSet, PriceSnapshot, AssetConfig, RunContext,
}
use tread_agent.Market.Scoring.{ScoredAsset, ScoringResult}
use tread_agent.Market.Scoring.Regimes.{RegimeResult}
use tread_agent.Market.Guardrails.{GuardrailResult, validate}
use tread_agent.Market.Fields.{
  fg_label, gap_if_none, data_gaps, has_indicator, if_any, rule_activation, causal_link,
  causal_links, regime_of, degraded_run, detail_from, trigger_detail, versions_of,
}

-- `epoch` is the text "1970-01-01T00:00:00Z".
module _ {V Stamp : Type 0} (n : Numbers V) (epoch : Stamp) where
  -- `_num`
  abbrev pub num : Option V → V
  num o = or_else o (n.decimal 0 1)

  abbrev pub currency_of : String → Currency
  currency_of symbol = if str_eq symbol "USD_IRR" then irt else usd

  -- `_price`
  unfoldable pub price_of : String → Option (PriceSnapshot V Stamp) → Price V Stamp
  price_of symbol none = record {
    value = n.decimal 0 1;
    currency = currency_of symbol;
    as_of = epoch;
    is_stale = true;
    stale_reason = some "price_unavailable";
    venue_aggregation = none;
  }
  price_of symbol (some s) = record {
    value = num s.value;
    currency = currency_of symbol;
    as_of = s.as_of;
    is_stale = s.is_stale;
    stale_reason = s.stale_reason;
    venue_aggregation = s.venue_aggregation;
  }

  -- `e.surprise_sigma or e.surprise`
  abbrev pub sigma_of : V → Option V → V
  sigma_of surprise none = surprise
  sigma_of surprise (some s) = if n.is_eq s (n.decimal 0 1) then surprise else s

  abbrev pub recent_surprise : EventFeature V → RecentSurprise V
  recent_surprise e = record {
    event = e.event_id;
    surprise_sigma = sigma_of e.surprise e.surprise_sigma;
  }

  -- The value of fear and greed, which is 50 if there is none.
  abbrev pub fear_greed_of : FeatureSet V → Truncated
  fear_greed_of features = n.truncated (or_else features.fear_greed_value (n.decimal 500 1))

  -- `Global`, of a value that is a whole number from zero on.
  abbrev pub global_with : FeatureSet V → Truncated → Ended (Global V)
  global_with features (not_finite x) = raised x
  global_with features below_zero = raised "ValidationError"
  global_with features (whole fg_value) =
      let made : Global V = record {
        fear_greed = record { value = fg_value; label = fg_label fg_value };
        btc_dominance = num features.btc_dominance;
        total_market_cap_usd = num features.total_market_cap_usd;
        recent_surprises = map recent_surprise features.event_features;
      } in
      accepted (global_fits n made) made

  -- `_global`
  unfoldable pub global_of : FeatureSet V → Ended (Global V)
  unfolding fg_label
  global_of features = global_with features (fear_greed_of features)

  module _ (activations : Dict (List (Activation V))) (prices : Dict (PriceSnapshot V Stamp)) where
    -- `_asset`, once the features and the scores of the symbol are there
    unfoldable pub asset_of : String → AssetConfig → AssetFeatures V → ScoredAsset V → Asset V Stamp
    unfolding price_of causal_links data_gaps lookup
    asset_of symbol cfg features scored =
        let acts = or_nothing (lookup symbol activations) in
        record {
          symbol = symbol;
          asset_class = cfg.asset_class;
          price = price_of symbol (lookup symbol prices);
          changes = record {
            h6 = num features.changes.h6;
            h24 = num features.changes.h24;
            d7 = num features.changes.d7;
            d30 = num features.changes.d30;
          };
          indicators = if_any features.indicators;
          scores = record {
            trend = scored.scores.trend;
            risk = scored.scores.risk;
            sentiment = none;
            confidence = scored.scores.confidence;
          };
          market_health_index = scored.market_health_index;
          regime_sensitivity = cfg.regime_sensitivity;
          activated_rules = map rule_activation acts;
          causal_links = causal_links symbol acts;
          human_summary_fa = none;
          novelty_flags = none;
          data_gaps = data_gaps symbol features.changes;
        }

    -- One asset of the comprehension: it is passed over if it has no scores, and features that are
    -- missing are a `KeyError`.
    abbrev pub with_asset :
        String
        → AssetConfig
        → Option (ScoredAsset V)
        → Option (AssetFeatures V)
        → Ended (List (Asset V Stamp))
        → Ended (List (Asset V Stamp))
    with_asset symbol cfg none features rest = rest
    with_asset symbol cfg (some s) none rest = raised "KeyError"
    with_asset symbol cfg (some s) (some f) rest =
        and_then (accepted (asset_fits n (asset_of symbol cfg f s)) (asset_of symbol cfg f s))
          (λ a. and_then rest (λ as'. returned (a ∷ as')))

    unfoldable pub assets_of :
        Dict AssetConfig
        → Dict (AssetFeatures V)
        → Dict (ScoredAsset V)
        → Ended (List (Asset V Stamp))
    unfolding asset_of lookup
    assets_of [] features scored = returned []
    assets_of ((symbol, cfg) ∷ assets) features scored =
        with_asset symbol cfg (lookup symbol scored) (lookup symbol features)
          (assets_of assets features scored)

    -- The candidate, before the guardrails.
    unfoldable pub candidate :
        (rulebook_version mhi_version : String)
        → RunContext Stamp
        → FeatureSet V
        → ScoringResult V
        → List GuardrailFlag
        → List (Asset V Stamp)
        → Global V
        → MarketStateRun V Stamp
    unfolding trigger_detail regime_of
    candidate rulebook_version mhi_version ctx features scoring conflict_flags assets overall =
        record {
          run_id = ctx.run_id;
          run_sequence = ctx.run_sequence;
          trigger_type = ctx.trigger_type;
          trigger_detail = trigger_detail ctx;
          generated_at = ctx.now;
          is_degraded = true;
          versions = versions_of rulebook_version mhi_version;
          regime = regime_of scoring.regime;
          assets = assets;
          overall = overall;
          guardrail_flags = degraded_run ∷ conflict_flags;
        }

  -- `run.model_copy(update={"guardrail_flags": result.flags})`
  unfoldable pub with_findings : MarketStateRun V Stamp → MarketStateRun V Stamp
  unfolding validate
  with_findings run = record run { guardrail_flags = (validate n run).flags }

  -- `DeterministicStateAssembler.assemble`: the assets, then the regime, then `_global`.
  unfoldable pub assemble :
      (rulebook_version mhi_version : String)
      → Dict AssetConfig
      → RunContext Stamp
      → FeatureSet V
      → ScoringResult V
      → Dict (List (Activation V))
      → List GuardrailFlag
      → Dict (PriceSnapshot V Stamp)
      → Ended (MarketStateRun V Stamp)
  unfolding assets_of candidate with_findings global_of regime_of
  assemble rulebook_version mhi_version cfg ctx features scoring activations conflict_flags prices =
      and_then (assets_of activations prices cfg features.per_asset scoring.per_asset) (λ assets.
        and_then (accepted (regime_fits n (regime_of scoring.regime)) (regime_of scoring.regime))
          (λ _. and_then (global_of features) (λ overall. returned (
            with_findings (
              candidate activations prices rulebook_version mhi_version ctx features scoring
                conflict_flags assets overall)))))
