-- ===== src/Market/Features.antt =====
-- src/market_state_engine/features/engine.py, changes.py and surprise.py: the features of the
-- configured assets and of the events.
pub mod Technical
pub mod Sources
use tread_agent.Base.{
  is_nonempty, ℕ, zero, suc, String, Bool, true, false, not, ◌&&◌, Option, none, some, List, [],
  ◌∷◌, ◌++◌, map, length, reverse, leb, if◌then◌else◌,
}
use tread_agent.Base.Dict.{Dict, lookup}
use tread_agent.Pipeline.Store.{MacroEvent, Ended, returned, raised}
use tread_agent.Rules.Activations.{EventFeature, value_of}
use tread_agent.Market.Numbers.{Numbers}
use tread_agent.Market.Models.{
  AssetClass, crypto, metal, energy, fx, index, Changes, Indicators, AssetFeatures, FeatureSet,
  AssetConfig, RunContext,
}
use tread_agent.Market.Ranges.{and_then, accepted, features_fit}
use tread_agent.Market.Features.Technical.{atr_pct, rsi_14, macd_state, ema_20_50, volume_ratio_20d}

-- The payload of an asset's snapshot, as `_floats` and `_optional_float` read it.
pub record Series (V : Type 0) : Type 0 where
  pub closes : List V
  pub highs : List V
  pub lows : List V
  pub volumes : List V
  pub horizon_changes : Option (Changes (Option V))

-- The global snapshots that there are, by the number that is read of each.
pub record Globals (V : Type 0) : Type 0 where
  pub fear_greed : Option (Option V)
  pub dominance : Option (Option V)
  pub total_mcap : Option (Option V)

-- `payload.get(key)` of a snapshot that may be missing
abbrev pub read_of : {V : Type 0} → Option (Option V) → Option V
read_of none = none
read_of (some v) = v

-- `xs[-1 - k]` of the series, newest first
unfoldable pub nth : {V : Type 0} → ℕ → List V → Option V
nth k [] = none
nth zero (x ∷ xs) = some x
nth (suc k) (x ∷ xs) = nth k xs

abbrev pub is_index : AssetClass → Bool
is_index index = true
is_index _ = false

-- No horizon has a value.
abbrev pub no_changes : {V : Type 0} → Changes (Option V)
no_changes = record { h6 = none; h24 = none; d7 = none; d30 = none }

-- `hours_since` is the signed number of hours from the text of a time to the run's time: it raises for
-- a text that is not a time (ValueError), and for a time without an offset (TypeError).
module _ {V Stamp : Type 0} (n : Numbers V) (hours_since : String → Stamp → Ended V) where
  -- `pct_change`, which refuses a past value of zero
  abbrev pub pct_change : V → V → Ended V
  pct_change current past =
      if n.is_eq past (n.decimal 0 0)
      then raised "ValueError"
      else returned (n.times (n.over (n.minus current past) past) (n.decimal 1000 1))

  abbrev pub change_between : Option V → Option V → Ended (Option V)
  change_between none past = returned none
  change_between (some c) none = returned none
  change_between (some c) (some p) = and_then (pct_change c p) (λ x. returned (some x))

  unfoldable pub horizon_change : List V → ℕ → Ended (Option V)
  unfolding nth
  horizon_change closes bars_back =
      if leb (length closes) bars_back
      then returned none
      else change_between (nth 0 (reverse closes)) (nth bars_back (reverse closes))

  -- The horizons of `_HORIZON_BARS`, in their order.
  unfoldable pub computed_changes : List V → Ended (Changes (Option V))
  unfolding horizon_change
  computed_changes closes = and_then (horizon_change closes 1) (λ a.
      and_then (horizon_change closes 4) (λ b. and_then (horizon_change closes 28) (λ c.
        and_then (horizon_change closes 120)
          (λ d. returned (record { h6 = a; h24 = b; d7 = c; d30 = d })))))

  abbrev pub changes_of : Series V → Option (Changes (Option V)) → Ended (Changes (Option V))
  changes_of s (some explicit) = returned explicit
  changes_of s none = computed_changes s.closes

  -- `_indicators`: an indicator that raises a `ValueError` is left out.
  unfoldable pub indicators_of : AssetClass → Series V → Indicators V
  unfolding atr_pct rsi_14 macd_state ema_20_50 volume_ratio_20d
  indicators_of asset_class s =
      let atr =
        if is_nonempty s.highs && is_nonempty s.lows && leb 15 (length s.closes)
        then atr_pct n s.highs s.lows s.closes
        else none in
      if is_index asset_class
      then record {
        rsi_14 = none;
        macd_state = none;
        ema_20_50 = none;
        atr_pct = atr;
        volume_ratio_20d = none;
      }
      else record {
        rsi_14 = if leb 15 (length s.closes) then rsi_14 n s.closes else none;
        macd_state = if leb 35 (length s.closes) then macd_state n s.closes else none;
        ema_20_50 = if leb 51 (length s.closes) then ema_20_50 n s.closes else none;
        atr_pct = atr;
        volume_ratio_20d = if leb 21 (length s.volumes) then volume_ratio_20d n s.volumes else none;
      }

  abbrev pub features_from : Indicators V → Changes (Option V) → AssetFeatures V
  features_from ind changes = record {
    indicators = some ind;
    changes = changes;
    atr_pct = ind.atr_pct;
    volume_ratio_20d = ind.volume_ratio_20d;
  }

  -- `_asset_features`
  unfoldable pub asset_features : AssetClass → Option (Series V) → Ended (AssetFeatures V)
  unfolding computed_changes indicators_of
  asset_features asset_class none =
      returned (record {
        indicators = none;
        changes = no_changes;
        atr_pct = none;
        volume_ratio_20d = none;
      })
  asset_features asset_class (some s) = and_then (changes_of s s.horizon_changes) (λ changes.
      accepted (features_fit n (features_from (indicators_of asset_class s) changes))
        (features_from (indicators_of asset_class s) changes))

  -- The loop over the configured assets.
  unfoldable pub all_features : Dict AssetConfig → Dict (Series V) → Ended (Dict (AssetFeatures V))
  unfolding asset_features lookup
  all_features [] snapshots = returned []
  all_features ((symbol, cfg) ∷ assets) snapshots =
      and_then (asset_features cfg.asset_class (lookup symbol snapshots))
        (λ f. and_then (all_features assets snapshots) (λ rest. returned ((symbol, f) ∷ rest)))

  -- `event_feature`
  abbrev pub surprise_feature : MacroEvent V → Stamp → Option V → Ended (List (EventFeature V))
  surprise_feature e now none = returned []
  surprise_feature e now (some actual) = and_then (hours_since e.scheduled_at now) (λ hours.
      returned (
        record {
          event_id = e.event_id;
          event_type = value_of e.event_type;
          surprise = n.minus actual e.consensus;
          surprise_sigma = none;
          proximity_hours = hours;
        }
        ∷ []))

  -- `event_feature` of each event whose actual value is recorded
  unfoldable pub event_features_of : Stamp → List (MacroEvent V) → Ended (List (EventFeature V))
  event_features_of now [] = returned []
  event_features_of now (e ∷ es) =
      and_then (surprise_feature e now e.actual)
        (λ fs. and_then (event_features_of now es) (λ rest. returned (fs ++ rest)))

  -- `FeatureEngine.compute`
  unfoldable pub compute :
      Dict AssetConfig
      → Dict (Series V)
      → Globals V
      → List (MacroEvent V)
      → RunContext Stamp
      → Ended (FeatureSet V)
  unfolding all_features event_features_of
  compute assets snapshots globals events ctx =
      and_then (all_features assets snapshots) (λ per_asset.
        and_then (event_features_of ctx.now events) (λ event_features. returned (record {
          run_id = ctx.run_id;
          per_asset = per_asset;
          fear_greed_value = read_of globals.fear_greed;
          btc_dominance = read_of globals.dominance;
          total_market_cap_usd = read_of globals.total_mcap;
          event_features = event_features;
        })))
