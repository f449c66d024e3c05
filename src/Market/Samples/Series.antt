-- ===== src/Market/Samples/Series.antt =====
-- Features of short series, with numbers of four decimals.
use tread_agent.Base.{
  ◌≡◌, refl, String, Option, none, some, List, [], ◌∷◌, reverse, str_eq, if◌then◌else◌, map,
}
use tread_agent.Base.Dict.{Dict}
use tread_agent.Pipeline.Store.{MacroEvent, us_cpi, scheduled, Ended, returned, raised}
use tread_agent.Rules.Activations.{EventFeature}
use tread_agent.Market.Fixed.{ℤ, pos, negsuc, fixed}
use tread_agent.Market.Models.{metal, high, FeatureSet, AssetConfig, RunContext}
use tread_agent.Market.Features.{Series, Globals, asset_features, indicators_of, compute}
use tread_agent.Market.Features.Technical.{rsi_14, atr_pct}
use tread_agent.Market.Features.Sources.{Outcome, Refusal, recorded_ids, compute-Outcome}

abbrev rising : List ℤ
rising =
    pos 10000
    ∷ pos 20000
    ∷ pos 30000
    ∷ pos 40000
    ∷ pos 50000
    ∷ pos 60000
    ∷ pos 70000
    ∷ pos 80000
    ∷ pos 90000
    ∷ pos 100000
    ∷ pos 110000
    ∷ pos 120000
    ∷ pos 130000
    ∷ pos 140000
    ∷ pos 150000
    ∷ []

rising_strength : rsi_14 fixed rising ≡ some (pos 1000000)
unfolding rsi_14
rising_strength = refl

-- Highs, lows and closes alike: each range is 1, and the last close 15.
rising_range : atr_pct fixed rising rising rising ≡ some (pos 66600)
unfolding atr_pct
rising_range = refl

abbrev series_of : List ℤ → Series ℤ
series_of closes = record {
  closes = closes;
  highs = [];
  lows = [];
  volumes = [];
  horizon_changes = none;
}

abbrev gold_config : Dict AssetConfig
gold_config = ("GOLD", record { asset_class = metal; regime_sensitivity = high }) ∷ []

abbrev globals : Globals ℤ
globals = record { fear_greed = none; dominance = some none; total_mcap = some (some (pos 10000)) }

abbrev cpi : Option ℤ → MacroEvent ℤ
cpi actual = record {
  event_id = "cpi-1";
  event_type = us_cpi;
  scheduled_at = "2026-01-01T00:00:00Z";
  consensus = pos 3000;
  actual = actual;
}

abbrev now : RunContext String
now = record {
  run_id = "run-1";
  run_sequence = 1;
  trigger_type = scheduled;
  trigger_detail = none;
  now = "2026-01-01T00:00:00Z";
  previous_state = none;
}

abbrev hours : String → String → Ended ℤ
hours text _ = if str_eq text "soon" then raised "ValueError" else returned (pos 0)

-- A close of zero before the last one aborts the run.
zero_refused :
    compute fixed hours gold_config
      (("GOLD", series_of (pos 0 ∷ pos 10000 ∷ [])) ∷ [])
      globals
      []
      now
    ≡ raised "ValueError"
unfolding compute
zero_refused = refl

-- The time of an event that cannot be read, either.
time_refused :
    compute fixed hours gold_config [] globals
      (record (cpi (some (pos 4000))) { scheduled_at = "soon" } ∷ [])
      now
    ≡ raised "ValueError"
unfolding compute
time_refused = refl

-- Closes that fall by 1 to below zero.
abbrev backwards : List ℤ
backwards = reverse (negsuc 9999 ∷ rising)

-- Closes that end below zero have a negative range.
range_refused :
    asset_features fixed hours metal (
      some (record {
        closes = backwards;
        highs = backwards;
        lows = backwards;
        volumes = [];
        horizon_changes = some (record { h6 = none; h24 = none; d7 = none; d30 = none });
      }))
    ≡ raised "ValidationError"
unfolding asset_features indicators_of atr_pct
range_refused = refl

compute-Outcome_example :
    Outcome
      (λ (fs : FeatureSet ℤ).
        (map (λ e. e.0) fs.per_asset ≡ map (λ (e : String × AssetConfig). e.0) gold_config)
        × (map (λ (f : EventFeature ℤ). f.event_id) fs.event_features
            ≡ recorded_ids fixed hours (cpi none ∷ cpi (some (pos 4000)) ∷ [])))
      (Refusal fixed hours gold_config
        (("GOLD", series_of rising) ∷ [])
        (cpi none ∷ cpi (some (pos 4000)) ∷ [])
        now.now)
      (compute fixed hours gold_config
        (("GOLD", series_of rising) ∷ [])
        globals
        (cpi none ∷ cpi (some (pos 4000)) ∷ [])
        now)
compute-Outcome_example =
    compute-Outcome fixed hours gold_config (("GOLD", series_of rising) ∷ []) globals
      (cpi none ∷ cpi (some (pos 4000)) ∷ []) now
