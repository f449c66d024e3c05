-- ===== src/Rules/Models.antt =====
-- src/market_state_engine/rules/models.py, and core/enums.py as far as the rules use it.
use tread_agent.Base.{ℕ, String, Bool, true, false, Option, List}
use tread_agent.Pipeline.Store.{MacroType}

pub data Direction : Type 0 where
  bullish bearish neutral : Direction

pub data OrdinalLevel : Type 0 where
  minor moderate major dominant : OrdinalLevel

pub data RegimeState : Type 0 where
  risk_on risk_off transition event_driven : RegimeState

-- The field `trigger` of a rule.
pub record Trigger : Type 0 where
  pub event_type : Option MacroType
  pub condition : String
  pub condition_vars : List String

pub record Effect : Type 0 where
  pub asset : String
  pub direction : Direction
  pub strength : OrdinalLevel
  pub horizon : String
  pub uncertain : Option Bool

pub record RegimeGuard : Type 0 where
  pub applies_in : List RegimeState
  pub otherwise : String

-- `half_life_hours` is a number of `V`.
pub record Rule (V : Type 0) : Type 0 where
  pub id : String
  pub version : ℕ
  pub status : String
  pub on_trigger : Trigger
  pub effects : List Effect
  pub regime_guard : Option RegimeGuard
  pub half_life_hours : V
  pub economic_rationale : String
  pub reviewed_by : String

-- `RuleGateError`, by what it is raised for.
pub data RuleGateError : Type 0 where
  condition_syntax : String → RuleGateError
  unknown_policy : (rule_id policy : String) → RuleGateError
  empty_rationale : (rule_id : String) → RuleGateError
  wrong_reviewer : (rule_id reviewed_by : String) → RuleGateError
  no_surprise : (rule_id : String) → RuleGateError
  open_gold_effect : (rule_id : String) → RuleGateError
  duplicate_id : (rule_id : String) → RuleGateError

pub data Checked {ℓ} (A : Type ℓ) : Type ℓ where
  valid : A → Checked A
  gate_error : RuleGateError → Checked A

abbrev pub same_regime : RegimeState → RegimeState → Bool
same_regime risk_on risk_on = true
same_regime risk_off risk_off = true
same_regime transition transition = true
same_regime event_driven event_driven = true
same_regime _ _ = false

abbrev pub is_neutral : Direction → Bool
is_neutral neutral = true
is_neutral _ = false
