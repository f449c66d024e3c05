-- ===== src/Rules/Matcher.antt =====
-- src/market_state_engine/rules/matcher.py: conditions on the surprises, and the guards on regimes.
use tread_agent.Base.{
  String, Bool, true, false, not, Option, none, some, List, [], map, any, str_eq, if◌then◌else◌,
}
use tread_agent.Base.Dict.{Dict, lookup}
use tread_agent.Rules.Models.{
  minor, RegimeState, same_regime, Effect, RegimeGuard, Rule, condition_syntax, unknown_policy,
  Checked, valid, gate_error,
}
use tread_agent.Rules.Condition.{
  Comparator, ge, le, eq, ne, gt, lt, Literal, Condition, parse_condition,
}

-- The floats of Python: `float` of a literal's text, and the comparisons.
pub record Floats (V : Type 0) : Type 0 where
  pub float : Literal → V
  pub is_lt : V → V → Bool
  pub is_le : V → V → Bool
  pub is_eq : V → V → Bool

module _ {V : Type 0} (floats : Floats V) where
  -- `_COMPARATORS`
  abbrev pub compares : Comparator → V → V → Bool
  compares ge a b = floats.is_le b a
  compares le a b = floats.is_le a b
  compares eq a b = floats.is_eq a b
  compares ne a b = not (floats.is_eq a b)
  compares gt a b = floats.is_lt b a
  compares lt a b = floats.is_lt a b

  abbrev pub holds_for : Condition → Option V → Bool
  holds_for c none = false
  holds_for c (some v) = compares c.op v (floats.float c.literal)

  abbrev pub evaluate_parsed : String → Dict V → Option Condition → Checked Bool
  evaluate_parsed text variables none = gate_error (condition_syntax text)
  evaluate_parsed text variables (some c) = valid (holds_for c (lookup c.name variables))

  unfoldable pub evaluate_condition : String → Dict V → Checked Bool
  unfolding parse_condition lookup
  evaluate_condition text variables = evaluate_parsed text variables (parse_condition text)

  unfoldable pub rule_matches : Rule V → Dict V → Checked Bool
  unfolding evaluate_condition
  rule_matches rule variables =
      if not (str_eq rule.status "active")
      then valid false
      else evaluate_condition rule.on_trigger.condition variables

-- `_downgrade`
abbrev pub downgrade : Effect → Effect
downgrade e = record e { strength = minor; uncertain = some true }

abbrev pub make_uncertain : Effect → Effect
make_uncertain e = record e { uncertain = some true }

-- `regime is not None and regime in guard.applies_in`
abbrev pub in_regime : Option RegimeState → RegimeGuard → Bool
in_regime none g = false
in_regime (some r) g = any (same_regime r) g.applies_in

-- The `else` policy.
unfoldable pub apply_policy : String → String → List Effect → Checked (List Effect)
apply_policy rule_id policy effects =
    if str_eq policy "suppress"
    then valid []
    else (if str_eq policy "downgrade_to_minor"
        then valid (map downgrade effects)
        else (if str_eq policy "flag_uncertain"
            then valid (map make_uncertain effects)
            else gate_error (unknown_policy rule_id policy)))

abbrev pub guard_effects :
    String → List Effect → Option RegimeState → Option RegimeGuard → Checked (List Effect)
guard_effects rule_id effects regime none = valid effects
guard_effects rule_id effects regime (some g) =
    if in_regime regime g then valid effects else apply_policy rule_id g.otherwise effects

unfoldable pub resolved_effects : {V : Type 0} → Rule V → Option RegimeState → Checked (List Effect)
unfolding apply_policy
resolved_effects rule regime = guard_effects rule.id rule.effects regime rule.regime_guard
