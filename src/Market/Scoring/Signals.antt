-- ===== src/Market/Scoring/Signals.antt =====
-- src/market_state_engine/scoring: the signals of common.py and trend.py, and the scores of trend.py,
-- risk.py, confidence.py and mhi.py.
use tread_agent.Base.{ℕ, Option, none, some, List, [], ◌∷◌, ◌++◌, map, length, ltb, if◌then◌else◌}
use tread_agent.Base.Dict.{Dict, lookup}
use tread_agent.Market.Numbers.{
  Numbers, zero_point, one_point, minus_one, sum_from, sum, over_length, clamped, products,
  weights_of, weighted_mean, unit,
}
use tread_agent.Market.Models.{
  MacdState, bullish_cross, bearish_cross, macd_neutral, macd_bullish, macd_bearish, EmaState,
  above_diverging, above_converging, below_diverging, below_converging, crossing, Indicators,
  AssetFeatures,
}

module _ {V : Type 0} (n : Numbers V) where
  -- `_EMA_MAP` and `_MACD_MAP`
  abbrev pub ema_signal : EmaState → V
  ema_signal above_diverging = n.decimal 10 1
  ema_signal above_converging = n.decimal 5 1
  ema_signal crossing = n.decimal 0 1
  ema_signal below_converging = n.negated (n.decimal 5 1)
  ema_signal below_diverging = n.negated (n.decimal 10 1)

  abbrev pub macd_signal : MacdState → V
  macd_signal bullish_cross = n.decimal 10 1
  macd_signal macd_bullish = n.decimal 5 1
  macd_signal macd_neutral = n.decimal 0 1
  macd_signal macd_bearish = n.negated (n.decimal 5 1)
  macd_signal bearish_cross = n.negated (n.decimal 10 1)

  -- Within [-1, 1], and within [0, 1].
  abbrev pub signed : V → V
  signed x = clamped n x (minus_one n) (one_point n)

  abbrev pub rsi_signal : V → V
  rsi_signal rsi = signed (n.over (n.minus rsi (n.decimal 500 1)) (n.decimal 500 1))

  -- `pairs.append((signal(x), weight))` if x is there
  abbrev pub pair_of : {A : Type 0} → (A → V) → V → Option A → List (V × V)
  pair_of signal weight none = []
  pair_of signal weight (some x) = (signal x, weight) ∷ []

  -- The pairs of the indicators, if there are any.
  abbrev pub indicator_pairs : Option (Indicators V) → List (V × V)
  indicator_pairs none = []
  indicator_pairs (some ind) =
      pair_of ema_signal (n.decimal 30 2) ind.ema_20_50
      ++ pair_of macd_signal (n.decimal 25 2) ind.macd_state
      ++ pair_of rsi_signal (n.decimal 15 2) ind.rsi_14

  unfoldable pub trend_subsignals : AssetFeatures V → List (V × V)
  unfolding clamped
  trend_subsignals features =
      indicator_pairs features.indicators
      ++ pair_of (λ c. signed (n.over c (n.decimal 50 1))) (n.decimal 15 2) features.changes.h24
      ++ pair_of (λ c. signed (n.over c (n.decimal 150 1))) (n.decimal 15 2) features.changes.d7

  unfoldable pub trend_score : AssetFeatures V → V
  unfolding trend_subsignals weighted_mean clamped
  trend_score features = signed (weighted_mean n (trend_subsignals features))

  unfoldable pub risk_pairs : AssetFeatures V → Option V → List (V × V)
  unfolding clamped
  risk_pairs features event_proximity_hours =
      pair_of (λ a. unit n (n.over a (n.decimal 50 1))) (n.decimal 50 2) features.atr_pct
      ++ pair_of (λ p. unit n (n.minus (n.decimal 10 1) (n.over (n.absolute p) (n.decimal 480 1))))
          (n.decimal 30 2) event_proximity_hours
      ++ pair_of (λ v. unit n (n.over (n.minus v (n.decimal 10 1)) (n.decimal 20 1)))
          (n.decimal 20 2) features.volume_ratio_20d

  unfoldable pub risk_score : AssetFeatures V → Option V → V
  unfolding risk_pairs weighted_mean clamped
  risk_score features event_proximity_hours =
      unit n (weighted_mean n (risk_pairs features event_proximity_hours))

  -- `sum(xs) / len(xs)`
  unfoldable pub mean_of : List V → V
  unfolding sum_from
  mean_of xs = over_length n (sum n xs) xs

  -- `_concordance`
  unfoldable pub concordance : List (V × V) → V
  unfolding mean_of clamped
  concordance subsignals =
      let values = map (λ (p : V × V). p.0) subsignals in
      if ltb (length values) 2
      then n.decimal 5 1
      else unit n (
          n.minus (n.decimal 10 1)
            (mean_of (map (λ v. n.absolute (n.minus v (mean_of values))) values)))

  abbrev pub completeness : ℕ → ℕ → V
  completeness present expected =
      if ltb 0 expected
      then unit n (n.over (n.decimal present 0) (n.decimal expected 0))
      else n.decimal 0 1

  unfoldable pub system_confidence : AssetFeatures V → ℕ → V
  unfolding trend_subsignals concordance clamped
  system_confidence features expected = unit n (
      n.plus (n.times (n.decimal 5 1) (completeness (length (trend_subsignals features)) expected))
        (n.times (n.decimal 5 1) (concordance (trend_subsignals features))))

  -- `pairs.append((health, w[key]))` if there is such a weight and such a component
  abbrev pub weighted : Option V → Option V → List (V × V)
  weighted none health = []
  weighted (some w) none = []
  weighted (some w) (some h) = (h, w) ∷ []

  abbrev pub half_up : V → V
  half_up x = n.over (n.plus x (n.decimal 10 1)) (n.decimal 20 1)

  abbrev pub option_map : (V → V) → Option V → Option V
  option_map f none = none
  option_map f (some x) = some (f x)

  unfoldable pub health_pairs : Dict V → V → V → Option V → Option V → List (V × V)
  unfolding lookup clamped
  health_pairs w trend risk sentiment atr_pct =
      weighted (lookup "trend" w) (some (half_up trend))
      ++ weighted (lookup "risk" w) (some (n.minus (n.decimal 10 1) risk))
      ++ weighted (lookup "sentiment" w) (option_map half_up sentiment)
      ++ weighted (lookup "volatility" w)
          (option_map (λ a. n.minus (n.decimal 10 1) (unit n (n.over a (n.decimal 50 1)))) atr_pct)

  unfoldable pub market_health_index : Dict V → V → V → Option V → Option V → ℕ
  unfolding health_pairs products weights_of sum_from clamped
  market_health_index w trend risk sentiment atr_pct =
      let pairs = health_pairs w trend risk sentiment atr_pct in
      let total = sum n (weights_of n pairs) in
      if n.is_eq total (zero_point n)
      then 50
      else n.round_whole
          (n.times (n.decimal 100 0) (unit n (n.over (sum n (products n pairs)) total)))
