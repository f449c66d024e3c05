-- ===== src/Market/Scoring.antt =====
-- src/market_state_engine/scoring/engine.py: the scores of the configured assets, and the regime.
pub mod Signals
pub mod Regimes
pub mod Bounds
pub mod Insensitive
use tread_agent.Base.{ℕ, String, Bool, Option, none, some, List, [], ◌∷◌, map, if◌then◌else◌}
use tread_agent.Base.Dict.{Dict, lookup}
use tread_agent.Rules.Models.{RegimeState}
use tread_agent.Rules.Activations.{EventFeature}
use tread_agent.Market.Numbers.{Numbers}
use tread_agent.Market.Models.{
  AssetClass, crypto, metal, energy, fx, index, Scores, AssetFeatures, FeatureSet, AssetConfig,
}
use tread_agent.Pipeline.Store.{Ended, returned}
use tread_agent.Market.Ranges.{and_then, accepted, scores_fit, in_unit}
use tread_agent.Market.Scoring.Signals.{
  trend_score, risk_score, system_confidence, market_health_index,
}
use tread_agent.Market.Scoring.Regimes.{AssetRegimeInput, RegimeResult, classify}

-- `_EXPECTED_SIGNALS`
abbrev pub expected_signals : AssetClass → ℕ
expected_signals crypto = 5
expected_signals metal = 5
expected_signals energy = 5
expected_signals fx = 5
expected_signals index = 2

pub record ScoredAsset (V : Type 0) : Type 0 where
  pub scores : Scores V
  pub market_health_index : ℕ

pub record ScoringResult (V : Type 0) : Type 0 where
  pub per_asset : Dict (ScoredAsset V)
  pub regime : RegimeResult V

-- `sentiment.get(symbol) if sentiment is not None else None`
unfoldable pub sentiment_for : {V : Type 0} → Option (Dict V) → String → Option V
unfolding lookup
sentiment_for none symbol = none
sentiment_for (some d) symbol = lookup symbol d

-- `round(s, 4) if s is not None else None`
abbrev pub rounded : {V : Type 0} → Numbers V → Option V → Option V
rounded n none = none
rounded n (some s) = some (n.round4 s)

module _ {V : Type 0} (n : Numbers V) where
  -- `min(..., key=abs)`: a later proximity must be nearer.
  unfoldable pub nearest : V → List (EventFeature V) → V
  nearest w [] = w
  nearest w (e ∷ es) =
      nearest
        (if n.is_lt (n.absolute e.proximity_hours) (n.absolute w) then e.proximity_hours else w) es

  unfoldable pub nearest_event_proximity : List (EventFeature V) → Option V
  unfolding nearest
  nearest_event_proximity [] = none
  nearest_event_proximity (e ∷ es) = some (nearest e.proximity_hours es)

  module _ (mhi_weights : Dict V) (sentiment : Option (Dict V)) (proximity : Option V) where
    -- The scores of an asset, before `AssetScores` has looked at their ranges.
    unfoldable pub scored_of : String → AssetConfig → AssetFeatures V → ScoredAsset V
    unfolding trend_score risk_score system_confidence market_health_index sentiment_for
    scored_of symbol cfg features = record {
      scores = record {
        trend = n.round4 (trend_score n features);
        risk = n.round4 (risk_score n features proximity);
        sentiment = rounded n (sentiment_for sentiment symbol);
        confidence = n.round4 (system_confidence n features (expected_signals cfg.asset_class));
      };
      market_health_index =
          market_health_index n mhi_weights (trend_score n features)
            (risk_score n features proximity) (sentiment_for sentiment symbol) features.atr_pct;
    }

    unfoldable pub score_asset : String → AssetConfig → AssetFeatures V → Ended (ScoredAsset V)
    unfolding scored_of
    score_asset symbol cfg features =
        let scored = scored_of symbol cfg features in accepted (scores_fit n scored.scores) scored

    unfoldable pub regime_input : String → AssetConfig → AssetFeatures V → AssetRegimeInput V
    unfolding trend_score risk_score
    regime_input symbol cfg features = record {
      symbol = symbol;
      trend = trend_score n features;
      risk = risk_score n features proximity;
      regime_sensitivity = cfg.regime_sensitivity;
    }

    -- `if features is None: continue`
    abbrev pub with_scored :
        String
        → AssetConfig
        → Option (AssetFeatures V)
        → Ended (Dict (ScoredAsset V))
        → Ended (Dict (ScoredAsset V))
    with_scored symbol cfg none rest = rest
    with_scored symbol cfg (some f) rest =
        and_then (score_asset symbol cfg f) (λ s. and_then rest (λ ss. returned ((symbol, s) ∷ ss)))

    abbrev pub with_input :
        String
        → AssetConfig
        → Option (AssetFeatures V)
        → List (AssetRegimeInput V)
        → List (AssetRegimeInput V)
    with_input symbol cfg none rest = rest
    with_input symbol cfg (some f) rest = regime_input symbol cfg f ∷ rest

    -- The loop over the configured assets, whose symbols are the keys of a dict: what it puts into
    -- `per_asset`, and what it appends to `regime_inputs`.
    unfoldable pub score_all :
        Dict AssetConfig → Dict (AssetFeatures V) → Ended (Dict (ScoredAsset V))
    unfolding lookup score_asset
    score_all [] features = returned []
    score_all ((symbol, cfg) ∷ assets) features =
        with_scored symbol cfg (lookup symbol features) (score_all assets features)

    unfoldable pub inputs_of : Dict AssetConfig → Dict (AssetFeatures V) → List (AssetRegimeInput V)
    unfolding lookup regime_input
    inputs_of [] features = []
    inputs_of ((symbol, cfg) ∷ assets) features =
        with_input symbol cfg (lookup symbol features) (inputs_of assets features)

  -- `ScoringEngine.score`, with the range of `RegimeResult`
  unfoldable pub score :
      Dict V
      → Dict AssetConfig
      → FeatureSet V
      → Option RegimeState
      → Option (Dict V)
      → Ended (ScoringResult V)
  unfolding score_all inputs_of nearest_event_proximity classify
  score mhi_weights assets features previous_state sentiment =
      let proximity = nearest_event_proximity features.event_features in
      let regime =
        classify n (inputs_of mhi_weights sentiment proximity assets features.per_asset)
          features.event_features previous_state in
      and_then (score_all mhi_weights sentiment proximity assets features.per_asset) (λ per_asset.
        accepted (in_unit n regime.confidence) (record { per_asset = per_asset; regime = regime }))
