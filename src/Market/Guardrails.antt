-- ===== src/Market/Guardrails.antt =====
-- src/market_state_engine/guardrails: the checks of checks.py on the document of a run, and `validate`
-- of engine.py. The details of the findings are texts that are left out.
pub mod Publish
pub mod Codes
use tread_agent.Base.{
  ℕ, suc, String, Bool, true, false, not, ◌&&◌, ◌||◌, Option, none, some, List, [], ◌∷◌, ◌++◌, map,
  any, is_some, str_eq, if◌then◌else◌,
}
use tread_agent.Rules.Models.{RegimeState, same_regime}
use tread_agent.Market.Numbers.{Numbers}
use tread_agent.Market.Models.{
  MacdState, bullish_cross, bearish_cross, macd_bullish, macd_bearish, EmaState, above_diverging,
  above_converging, below_diverging, below_converging, Severity, warning, critical, Regime,
  Indicators, RuleActivation, CausalLink, Asset, FlagField, sentiment_of, summary_of, link_of,
  trend_of, regime_changed, GuardrailFlag, MarketStateRun,
}

pub record Finding : Type 0 where
  pub code : String
  pub severity : Severity
  pub field : Option FlagField

pub record GuardrailResult : Type 0 where
  pub flags : List GuardrailFlag
  pub publish : Bool

-- `code in codes`
unfoldable pub has_code : String → List GuardrailFlag → Bool
has_code code flags = any (λ (f : GuardrailFlag). str_eq f.code code) flags

-- `[finding]` if the test holds
unfoldable pub found : Bool → String → Severity → FlagField → List Finding
found test code severity field =
    if test then record { code = code; severity = severity; field = some field } ∷ [] else []

-- `_bullishness`
abbrev pub is_macd_bull : MacdState → Bool
is_macd_bull macd_bullish = true
is_macd_bull bullish_cross = true
is_macd_bull _ = false

abbrev pub is_macd_bear : MacdState → Bool
is_macd_bear macd_bearish = true
is_macd_bear bearish_cross = true
is_macd_bear _ = false

abbrev pub is_ema_bull : EmaState → Bool
is_ema_bull above_diverging = true
is_ema_bull above_converging = true
is_ema_bull _ = false

abbrev pub is_ema_bear : EmaState → Bool
is_ema_bear below_diverging = true
is_ema_bear below_converging = true
is_ema_bear _ = false

unfoldable pub bullishness : Option MacdState → Option EmaState → Option Bool
bullishness none ema = none
bullishness (some m) none = none
bullishness (some m) (some e) =
    if is_macd_bull m && is_ema_bull e
    then some true
    else (if is_macd_bear m && is_ema_bear e then some false else none)

-- `regime.state.value != prev`
abbrev pub has_changed : RegimeState → Option RegimeState → Bool
has_changed state none = true
has_changed state (some p) = not (same_regime state p)

abbrev pub same_bool : Bool → Bool → Bool
same_bool true b = b
same_bool false b = not b

abbrev pub is_critical : Severity → Bool
is_critical critical = true
is_critical _ = false

unfoldable pub link_findings : (String → Bool) → ℕ → ℕ → List CausalLink → List Finding
unfolding found
link_findings activated i j [] = []
link_findings activated i j (l ∷ ls) =
    found (not (activated l.via_rule)) "dangling_causal_link" critical (link_of i j)
    ++ link_findings activated i (suc j) ls

-- `trend <= -0.5` of bullish signals, `trend >= 0.5` of bearish ones
abbrev pub contradicts : {V : Type 0} → Numbers V → Option Bool → V → Bool
contradicts n none trend = false
contradicts n (some true) trend = n.is_le trend (n.negated (n.decimal 5 1))
contradicts n (some false) trend = n.is_le (n.decimal 5 1) trend

abbrev pub signals_of : {V : Type 0} → Option (Indicators V) → Option Bool
signals_of none = none
signals_of (some ind) = bullishness ind.macd_state ind.ema_20_50

abbrev pub to_flag : Finding → GuardrailFlag
to_flag f = record { code = f.code; severity = f.severity; field = f.field }

module _ {V Stamp : Type 0} where
  -- `sentiment_failed` and `synthesis_failed`
  abbrev pub is_scoped : MarketStateRun V Stamp → Bool
  is_scoped run =
      has_code "sentiment_degraded" run.guardrail_flags
      || has_code "synthesis_degraded" run.guardrail_flags

  unfoldable pub sentiment_failed : MarketStateRun V Stamp → Bool
  sentiment_failed run =
      has_code "sentiment_degraded" run.guardrail_flags || run.is_degraded && not (is_scoped run)

  unfoldable pub synthesis_failed : MarketStateRun V Stamp → Bool
  synthesis_failed run =
      has_code "synthesis_degraded" run.guardrail_flags || run.is_degraded && not (is_scoped run)

  unfoldable pub degraded_findings : Bool → Bool → ℕ → List (Asset V Stamp) → List Finding
  unfolding found
  degraded_findings no_sentiment no_synthesis i [] = []
  degraded_findings no_sentiment no_synthesis i (a ∷ as') =
      found (no_sentiment && is_some a.scores.sentiment) "degraded_sentiment_present" critical
        (sentiment_of i)
      ++ found (no_synthesis && is_some a.human_summary_fa) "degraded_summary_present" critical
          (summary_of i)
      ++ degraded_findings no_sentiment no_synthesis (suc i) as'

  unfoldable pub check_degraded_honesty : MarketStateRun V Stamp → List Finding
  unfolding degraded_findings sentiment_failed synthesis_failed
  check_degraded_honesty run =
      degraded_findings (sentiment_failed run) (synthesis_failed run) 0 run.assets

  -- `via_rule in activated`
  abbrev pub is_activated : List (Asset V Stamp) → String → Bool
  is_activated assets rule_id =
      any
        (λ (a : Asset V Stamp).
          any (λ (r : RuleActivation V). str_eq r.rule_id rule_id) a.activated_rules)
        assets

  unfoldable pub dangling_findings : (String → Bool) → ℕ → List (Asset V Stamp) → List Finding
  unfolding link_findings
  dangling_findings activated i [] = []
  dangling_findings activated i (a ∷ as') =
      link_findings activated i 0 a.causal_links ++ dangling_findings activated (suc i) as'

  unfoldable pub check_causal_links_resolve : MarketStateRun V Stamp → List Finding
  unfolding dangling_findings
  check_causal_links_resolve run = dangling_findings (is_activated run.assets) 0 run.assets

  -- `if changed_this_run != expected`
  unfoldable pub check_regime_change_flag : MarketStateRun V Stamp → List Finding
  unfolding found
  check_regime_change_flag run =
      found
        (not (
          same_bool run.regime.changed_this_run
            (has_changed run.regime.state run.regime.previous_state)))
        "regime_change_flag_inconsistent" warning regime_changed

  module _ (n : Numbers V) where
    unfoldable pub trend_findings : ℕ → List (Asset V Stamp) → List Finding
    unfolding bullishness found
    trend_findings i [] = []
    trend_findings i (a ∷ as') =
        found (contradicts n (signals_of a.indicators) a.scores.trend)
          "trend_indicator_contradiction" warning (trend_of i)
        ++ trend_findings (suc i) as'

    unfoldable pub check_trend_indicator_consistency : MarketStateRun V Stamp → List Finding
    unfolding trend_findings
    check_trend_indicator_consistency run = trend_findings 0 run.assets

    -- The findings of `ALL_CHECKS`, in its order.
    unfoldable pub all_findings : MarketStateRun V Stamp → List Finding
    unfolding check_degraded_honesty check_causal_links_resolve check_regime_change_flag
        check_trend_indicator_consistency
    all_findings run =
        check_degraded_honesty run
        ++ check_causal_links_resolve run
        ++ check_trend_indicator_consistency run
        ++ check_regime_change_flag run

    unfoldable pub validate : MarketStateRun V Stamp → GuardrailResult
    unfolding all_findings
    validate run = record {
      flags = run.guardrail_flags ++ map to_flag (all_findings run);
      publish = not (any (λ (f : Finding). is_critical f.severity) (all_findings run));
    }
