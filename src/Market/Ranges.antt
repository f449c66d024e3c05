-- ===== src/Market/Ranges.antt =====
-- The ranges that core/dtos.py and core/models.py of src/market_state_engine give to their fields:
-- Pydantic raises a `ValidationError` for a value outside them, a NaN included.
use tread_agent.Base.{Bool, true, not, ◌&&◌, Option, none, some, any, leb, if◌then◌else◌}
use tread_agent.Pipeline.Store.{Ended, returned, raised}
use tread_agent.Market.Numbers.{Numbers, zero_point, one_point, minus_one}
use tread_agent.Market.Models.{
  Driver, DriverWeight, computed, ordinal, Regime, Indicators, Scores, RuleActivation, Asset,
  Global, AssetFeatures,
}

abbrev pub and_then : {A B : Type 0} → Ended A → (A → Ended B) → Ended B
and_then (raised x) k = raised x
and_then (returned a) k = k a

-- The object, if its fields are in their ranges.
abbrev pub accepted : {A : Type 0} → Bool → A → Ended A
accepted fits a = if fits then returned a else raised "ValidationError"

module _ {V : Type 0} (n : Numbers V) where
  abbrev pub at_least : V → V → Bool
  at_least low x = n.is_le low x

  abbrev pub within : V → V → V → Bool
  within low high x = n.is_le low x && n.is_le x high

  abbrev pub in_unit : V → Bool
  in_unit x = within (zero_point n) (one_point n) x

  abbrev pub in_percent : V → Bool
  in_percent x = within (zero_point n) (n.decimal 1000 1) x

  abbrev pub if_given : (V → Bool) → Option V → Bool
  if_given test none = true
  if_given test (some x) = test x

  -- `AssetFeatures`
  abbrev pub features_fit : AssetFeatures V → Bool
  features_fit f =
      if_given (at_least (zero_point n)) f.atr_pct
      && if_given (at_least (zero_point n)) f.volume_ratio_20d

  -- `AssetScores`, and `Scores`
  abbrev pub scores_fit : Scores V → Bool
  scores_fit s =
      within (minus_one n) (one_point n) s.trend
      && in_unit s.risk
      && if_given (within (minus_one n) (one_point n)) s.sentiment
      && in_unit s.confidence

  -- `Indicators`
  abbrev pub indicators_fit : Option (Indicators V) → Bool
  indicators_fit none = true
  indicators_fit (some i) =
      if_given in_percent i.rsi_14
      && if_given (at_least (zero_point n)) i.atr_pct
      && if_given (at_least (zero_point n)) i.volume_ratio_20d

  -- `Asset`, with its `Indicators`, `Scores` and `RuleActivation`s
  abbrev pub asset_fits : {Stamp : Type 0} → Asset V Stamp → Bool
  asset_fits a =
      indicators_fit a.indicators
      && scores_fit a.scores
      && not (any (λ (r : RuleActivation V). not (in_unit r.decay_remaining)) a.activated_rules)
      && leb a.market_health_index 100

  abbrev pub weight_fits : DriverWeight V → Bool
  weight_fits (computed w) = in_unit w
  weight_fits (ordinal _) = true

  -- `Regime`, with its `Driver`s
  abbrev pub regime_fits : Regime V → Bool
  regime_fits r =
      in_unit r.confidence && not (any (λ (d : Driver V). not (weight_fits d.weight)) r.drivers)

  -- `Global`, with its `FearGreed`
  abbrev pub global_fits : Global V → Bool
  global_fits g =
      leb g.fear_greed.value 100
      && in_percent g.btc_dominance
      && at_least (zero_point n) g.total_market_cap_usd
