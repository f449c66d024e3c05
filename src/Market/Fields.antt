-- ===== src/Market/Fields.antt =====
-- src/market_state_engine/assembly/deterministic_state.py: the fields of the document that need no
-- arithmetic.
use tread_agent.Base.{
  ℕ, String, Bool, true, not, Option, none, some, List, [], ◌∷◌, ◌++◌, map, select, leb, is_some,
  or_else, str_eq, if◌then◌else◌,
}
use tread_agent.Pipeline.Store.{TriggerType, scheduled, event}
use tread_agent.Rules.Models.{is_neutral}
use tread_agent.Rules.Activations.{Activation}
use tread_agent.Market.Models.{
  warning, FearGreedLabel, extreme_fear, fear, fear_greed_neutral, greed, extreme_greed, Regime,
  Changes, Indicators, RuleActivation, CausalLink, GuardrailFlag, Versions, TriggerDetail,
  RunContext,
}
use tread_agent.Market.Scoring.Regimes.{RegimeResult}

-- `_fg_label`
unfoldable pub fg_label : ℕ → FearGreedLabel
fg_label value =
    if leb value 24
    then extreme_fear
    else (if leb value 44
        then fear
        else (if leb value 55
            then fear_greed_neutral
            else (if leb value 74 then greed else extreme_greed)))

-- `if value is None: gaps.append(gap)`
abbrev pub gap_if_none : {A : Type 0} → Option A → String → List String
gap_if_none none gap = gap ∷ []
gap_if_none (some x) gap = []

-- `_data_gaps`
unfoldable pub data_gaps : {V : Type 0} → String → Changes (Option V) → List String
data_gaps symbol c =
    gap_if_none c.h6 "missing_6h_change"
    ++ (if str_eq symbol "TOTAL_MCAP"
        then gap_if_none c.h24 "missing_24h_change"
          ++ gap_if_none c.d7 "missing_7d_change"
          ++ gap_if_none c.d30 "missing_30d_change"
        else [])

-- `features.indicators` is not an empty dict.
abbrev pub has_indicator : {V : Type 0} → Indicators V → Bool
has_indicator ind =
    if is_some ind.rsi_14
    then true
    else (if is_some ind.macd_state
        then true
        else (if is_some ind.ema_20_50
            then true
            else (if is_some ind.atr_pct then true else is_some ind.volume_ratio_20d)))

abbrev pub if_any : {V : Type 0} → Option (Indicators V) → Option (Indicators V)
if_any none = none
if_any (some ind) = if has_indicator ind then some ind else none

abbrev pub rule_activation : {V : Type 0} → Activation V → RuleActivation V
rule_activation a = record {
  rule_id = a.rule_id;
  strength = a.strength;
  horizon = a.horizon;
  decay_remaining = a.decay_remaining;
}

abbrev pub causal_link : {V : Type 0} → String → Activation V → CausalLink
causal_link symbol a = record {
  origin = or_else a.event_id a.rule_id;
  to = symbol;
  direction = a.direction;
  via_rule = a.rule_id;
}

unfoldable pub causal_links : {V : Type 0} → String → List (Activation V) → List CausalLink
causal_links symbol acts =
    map (causal_link symbol) (select (λ a. not (is_neutral a.direction)) acts)

unfoldable pub regime_of : {V : Type 0} → RegimeResult V → Regime V
regime_of r = record {
  state = r.state;
  previous_state = r.previous_state;
  changed_this_run = r.changed_this_run;
  confidence = r.confidence;
  drivers = r.computed_drivers;
}

abbrev pub degraded_run : GuardrailFlag
degraded_run = record { code = "degraded_run"; severity = warning; field = none }

abbrev pub detail_from :
    {Stamp : Type 0} → Stamp → Option (TriggerDetail Stamp) → TriggerType → TriggerDetail Stamp
detail_from now (some d) t = d
detail_from now none scheduled = record {
  event_id = none;
  debounced_events = none;
  scheduled_for = some now;
}
detail_from now none event = record {
  event_id = none;
  debounced_events = some 0;
  scheduled_for = none;
}

-- `_trigger_detail`
unfoldable pub trigger_detail : {Stamp : Type 0} → RunContext Stamp → TriggerDetail Stamp
trigger_detail ctx = detail_from ctx.now ctx.trigger_detail ctx.trigger_type

-- `_versions`, with the placeholders of a run without language models
abbrev pub versions_of : (rulebook_version mhi_version : String) → Versions
versions_of rulebook_version mhi_version = record {
  rulebook = rulebook_version;
  mhi_weights = mhi_version;
  prompt_sentiment = "none";
  prompt_synthesis = "none";
  provider = "none";
  model = "none";
  pipeline = "0.0.0";
  pricing = "none";
}
