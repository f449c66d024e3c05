-- ===== src/Rules/Activations.antt =====
-- The features of events, the activations and what src/market_state_engine/rules/engine.py collects.
use tread_agent.Base.{ℕ, String, Option, none, some, List, []}
use tread_agent.Base.Dict.{Dict}
use tread_agent.Pipeline.Store.{MacroType, us_cpi, fomc, us_nfp}
use tread_agent.Rules.Models.{Direction, OrdinalLevel, Rule}
use tread_agent.Rules.Conflict.{Candidate}

-- core/dtos.EventFeature
pub record EventFeature (V : Type 0) : Type 0 where
  pub event_id : String
  pub event_type : String
  pub surprise : V
  pub surprise_sigma : Option V
  pub proximity_hours : V

pub record Activation (V : Type 0) : Type 0 where
  pub asset : String
  pub rule_id : String
  pub strength : OrdinalLevel
  pub horizon : String
  pub decay_remaining : V
  pub direction : Direction
  pub event_id : Option String
  pub matched_condition : String
  pub source_rule_version : ℕ

-- The arithmetic of Python's floats that the decay uses; `half_power x` is `0.5 ** x`.
pub record Arithmetic (V : Type 0) : Type 0 where
  pub zero : V
  pub one : V
  pub absolute : V → V
  pub quotient : V → V → V
  pub half_power : V → V
  pub round4 : V → V

abbrev pub value_of : MacroType → String
value_of us_cpi = "us_cpi"
value_of fomc = "fomc"
value_of us_nfp = "us_nfp"

abbrev pub or_nothing : {A : Type 0} → Option (List A) → List A
or_nothing none = []
or_nothing (some xs) = xs

-- What `match` has collected: the effects by asset, and the rule and event of an asset's rule id, the
-- last assignment first.
pub record Collected (V : Type 0) : Type 0 where
  pub candidates : Dict (List Candidate)
  pub meta : List ((String × String) × (Rule V × Option (EventFeature V)))
