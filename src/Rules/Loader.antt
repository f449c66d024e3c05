-- ===== src/Rules/Loader.antt =====
-- src/market_state_engine/rules/loader.py: the gate that every rule passes, and the rulebook without
-- a rule id twice. Reading the files and Pydantic's validation are not modelled: the rules are those
-- that they give, in the order of the files.
pub mod Gate
use text.Mathlib.Text.{starts_with}
use tread_agent.Base.{
  ℕ, String, Bool, true, false, not, ◌&&◌, ◌||◌, Option, none, some, List, [], ◌∷◌, any, is_some,
  or_else, str_eq, if◌then◌else◌,
}
use tread_agent.Pipeline.Store.{MacroType, us_cpi}
use tread_agent.Rules.Models.{
  OrdinalLevel, minor, Effect, Rule, RuleGateError, empty_rationale, wrong_reviewer, no_surprise,
  open_gold_effect, duplicate_id, Checked, valid, gate_error,
}
use tread_agent.Rules.Condition.{at_end, span, is_space}

abbrev pub is_minor : OrdinalLevel → Bool
is_minor minor = true
is_minor _ = false

abbrev pub is_cpi : Option MacroType → Bool
is_cpi (some us_cpi) = true
is_cpi _ = false

abbrev pub is_open : Effect → Bool
is_open e = str_eq e.asset "GOLD" && not (is_minor e.strength && or_else e.uncertain false)

-- The first error, if any.
abbrev pub or_then : Option RuleGateError → Option RuleGateError → Option RuleGateError
or_then (some x) y = some x
or_then none y = y

module _ {V : Type 0} where
  -- An error of a lint, or none. `not s.strip()` is that `s` ends behind its spaces.
  unfoldable pub lint_signoff : Rule V → Option RuleGateError
  unfolding span is_space
  lint_signoff rule =
      if at_end rule.economic_rationale
      then some (empty_rationale rule.id)
      else (if not (str_eq rule.reviewed_by "senior_trader")
          then some (wrong_reviewer rule.id rule.reviewed_by)
          else none)

  unfoldable pub lint_surprise : Rule V → Option RuleGateError
  lint_surprise rule =
      if not (is_some rule.on_trigger.event_type)
      then none
      else (if any (λ v. starts_with v "surprise") rule.on_trigger.condition_vars
          then none
          else some (no_surprise rule.id))

  unfoldable pub lint_gold_cpi : Rule V → Option RuleGateError
  lint_gold_cpi rule =
      if not (is_cpi rule.on_trigger.event_type)
      then none
      else (if not (is_some rule.regime_guard) && any is_open rule.effects
          then some (open_gold_effect rule.id)
          else none)

  unfoldable pub validate_rule : Rule V → Option RuleGateError
  unfolding lint_signoff lint_surprise lint_gold_cpi
  validate_rule rule =
      or_then (lint_signoff rule) (or_then (lint_surprise rule) (lint_gold_cpi rule))

  abbrev pub gated :
      Option RuleGateError → Checked (List (Rule V)) → Rule V → Checked (List (Rule V))
  gated (some x) rest rule = gate_error x
  gated none (gate_error x) rule = gate_error x
  gated none (valid rules) rule = valid (rule ∷ rules)

  -- The loop of `load_rulebook` over the rules of the files, with the ids seen before.
  unfoldable pub load_rules : List String → List (Rule V) → Checked (List (Rule V))
  unfolding validate_rule
  load_rules seen [] = valid []
  load_rules seen (rule ∷ rules) =
      let rest = load_rules (rule.id ∷ seen) rules in
      gated
        (or_then (validate_rule rule)
          (if any (str_eq rule.id) seen then some (duplicate_id rule.id) else none))
        rest rule
