-- ===== src/Market/Models.antt =====
-- src/market_state_engine/core: the document of a run (models.py), its enums (enums.py), the features
-- of an asset (dtos.py) and the run's context (run_context.py), with the numbers of `V`. Texts for
-- readers (details, the disclaimer) are left out; a text of a time is a value of `Stamp`.
use tread_agent.Base.{ℕ, String, Bool, Option, List}
use tread_agent.Base.Dict.{Dict}
use tread_agent.Pipeline.Store.{TriggerType}
use tread_agent.Rules.Models.{Direction, OrdinalLevel, RegimeState}
use tread_agent.Rules.Activations.{EventFeature}

pub data AssetClass : Type 0 where
  crypto metal energy fx index : AssetClass

pub data RegimeSensitivity : Type 0 where
  high medium low : RegimeSensitivity

pub data MacdState : Type 0 where
  bullish_cross bearish_cross macd_neutral macd_bullish macd_bearish : MacdState

pub data EmaState : Type 0 where
  above_diverging above_converging below_diverging below_converging crossing : EmaState

pub data Severity : Type 0 where
  info warning critical : Severity

pub data Currency : Type 0 where
  usd irt : Currency

pub data FearGreedLabel : Type 0 where
  extreme_fear fear fear_greed_neutral greed extreme_greed : FearGreedLabel

-- `weight_type` and the number or the level that goes with it.
pub data DriverWeight (V : Type 0) : Type 0 where
  computed : (weight : V) → DriverWeight V
  ordinal : (level : OrdinalLevel) → DriverWeight V

pub record Driver (V : Type 0) : Type 0 where
  pub name : String
  pub weight : DriverWeight V
  pub detail : Option String

pub record Regime (V : Type 0) : Type 0 where
  pub state : RegimeState
  pub previous_state : Option RegimeState
  pub changed_this_run : Bool
  pub confidence : V
  pub drivers : List (Driver V)

pub record Price (V Stamp : Type 0) : Type 0 where
  pub value : V
  pub currency : Currency
  pub as_of : Stamp
  pub is_stale : Bool
  pub stale_reason : Option String
  pub venue_aggregation : Option String

-- The horizons 6h, 24h, 7d and 30d.
pub record Changes (V : Type 0) : Type 0 where
  pub h6 : V
  pub h24 : V
  pub d7 : V
  pub d30 : V

-- An absent key of the dict of indicators is none.
pub record Indicators (V : Type 0) : Type 0 where
  pub rsi_14 : Option V
  pub macd_state : Option MacdState
  pub ema_20_50 : Option EmaState
  pub atr_pct : Option V
  pub volume_ratio_20d : Option V

pub record Scores (V : Type 0) : Type 0 where
  pub trend : V
  pub risk : V
  pub sentiment : Option V
  pub confidence : V

pub record RuleActivation (V : Type 0) : Type 0 where
  pub rule_id : String
  pub strength : OrdinalLevel
  pub horizon : String
  pub decay_remaining : V

pub record CausalLink : Type 0 where
  pub origin : String
  pub to : String
  pub direction : Direction
  pub via_rule : String

pub record Asset (V Stamp : Type 0) : Type 0 where
  pub symbol : String
  pub asset_class : AssetClass
  pub price : Price V Stamp
  pub changes : Changes V
  pub indicators : Option (Indicators V)
  pub scores : Scores V
  pub market_health_index : ℕ
  pub regime_sensitivity : RegimeSensitivity
  pub activated_rules : List (RuleActivation V)
  pub causal_links : List CausalLink
  pub human_summary_fa : Option String
  pub novelty_flags : Option (List String)
  pub data_gaps : List String

-- The path that a flag names.
pub data FlagField : Type 0 where
  sentiment_of : (asset : ℕ) → FlagField
  summary_of : (asset : ℕ) → FlagField
  link_of : (asset link : ℕ) → FlagField
  trend_of : (asset : ℕ) → FlagField
  regime_changed : FlagField

pub record GuardrailFlag : Type 0 where
  pub code : String
  pub severity : Severity
  pub field : Option FlagField

pub record FearGreed : Type 0 where
  pub value : ℕ
  pub label : FearGreedLabel

pub record RecentSurprise (V : Type 0) : Type 0 where
  pub event : String
  pub surprise_sigma : V

-- `expectation_context` by its recent surprises; `onchain_context` is always None.
pub record Global (V : Type 0) : Type 0 where
  pub fear_greed : FearGreed
  pub btc_dominance : V
  pub total_market_cap_usd : V
  pub recent_surprises : List (RecentSurprise V)

pub record Versions : Type 0 where
  pub rulebook : String
  pub mhi_weights : String
  pub prompt_sentiment : String
  pub prompt_synthesis : String
  pub provider : String
  pub model : String
  pub pipeline : String
  pub pricing : String

pub record TriggerDetail (Stamp : Type 0) : Type 0 where
  pub event_id : Option String
  pub debounced_events : Option ℕ
  pub scheduled_for : Option Stamp

pub record MarketStateRun (V Stamp : Type 0) : Type 0 where
  pub run_id : String
  pub run_sequence : ℕ
  pub trigger_type : TriggerType
  pub trigger_detail : TriggerDetail Stamp
  pub generated_at : Stamp
  pub is_degraded : Bool
  pub versions : Versions
  pub regime : Regime V
  pub assets : List (Asset V Stamp)
  pub overall : Global V
  pub guardrail_flags : List GuardrailFlag

-- dtos.py; an absent horizon is none.
pub record AssetFeatures (V : Type 0) : Type 0 where
  pub indicators : Option (Indicators V)
  pub changes : Changes (Option V)
  pub atr_pct : Option V
  pub volume_ratio_20d : Option V

pub record FeatureSet (V : Type 0) : Type 0 where
  pub run_id : String
  pub per_asset : Dict (AssetFeatures V)
  pub fear_greed_value : Option V
  pub btc_dominance : Option V
  pub total_market_cap_usd : Option V
  pub event_features : List (EventFeature V)

-- A snapshot of a price: the keys of `payload` that the assembly reads, none where the key is absent
-- or its value has another type.
pub record PriceSnapshot (V Stamp : Type 0) : Type 0 where
  pub value : Option V
  pub venue_aggregation : Option String
  pub as_of : Stamp
  pub is_stale : Bool
  pub stale_reason : Option String

-- What of an asset's configuration is read here.
pub record AssetConfig : Type 0 where
  pub asset_class : AssetClass
  pub regime_sensitivity : RegimeSensitivity

pub record RunContext (Stamp : Type 0) : Type 0 where
  pub run_id : String
  pub run_sequence : ℕ
  pub trigger_type : TriggerType
  pub trigger_detail : Option (TriggerDetail Stamp)
  pub now : Stamp
  pub previous_state : Option RegimeState
