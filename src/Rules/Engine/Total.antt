-- ===== src/Rules/Engine/Total.antt =====
-- When the engine of src/market_state_engine/rules/engine.py raises no RuleGateError.
use tread_agent.Base.{
  ◌≡◌, refl, ◌⊎◌, inl, inr, String, Bool, true, false, not, Option, none, some, List, [], ◌∷◌, All,
  str_eq, Bool-cases,
}
use tread_agent.Base.Dict.{Dict}
use tread_agent.Rules.Models.{RegimeState, Effect, RegimeGuard, Rule, Checked, valid, gate_error}
use tread_agent.Rules.Condition.{Condition, parse_condition}
use tread_agent.Rules.Matcher.{
  Floats, evaluate_condition, rule_matches, in_regime, apply_policy, guard_effects,
  resolved_effects,
}
use tread_agent.Rules.Engine.{event_of, add_if, collect, with_vars, by_type, match_rules}
use tread_agent.Rules.Activations.{EventFeature, Arithmetic, Collected}

-- It ends without an error.
abbrev pub IsValid : {A : Type 0} → Checked A → Type 0
IsValid {A} c = (a : A) × (c ≡ valid a)

abbrev pub Known : Option RegimeGuard → Type 0
Known none = Unit
Known (some g) =
    (g.otherwise ≡ "suppress")
    ⊎ (g.otherwise ≡ "downgrade_to_minor")
    ⊎ (g.otherwise ≡ "flag_uncertain")

-- The condition is one of the pattern, and the guard's policy one of the three.
pub record IsExecutable {V : Type 0} (rule : Rule V) : Type 0 where
  pub parsed : (c : Condition) × (parse_condition rule.on_trigger.condition ≡ some c)
  pub known : Known rule.regime_guard

module _ {V : Type 0} (floats : Floats V) (arithmetic : Arithmetic V) where
  rule_matches-IsValid :
      (rule : Rule V) (vars : Dict V) → IsExecutable rule → IsValid (rule_matches floats rule vars)
  unfolding rule_matches evaluate_condition
  rule_matches-IsValid rule vars x = elim (Bool-cases (not (str_eq rule.status "active"))) [
    | inl e ↦ rw e (false, refl)
    | inr e ↦ rw (e, x.parsed.1) (_, refl)
  ]

  apply_policy-IsValid :
      (id : String) (g : RegimeGuard) (es : List Effect)
      → Known (some g)
      → IsValid (apply_policy id g.otherwise es)
  unfolding apply_policy
  apply_policy-IsValid id g es (inl e) = rw e (_, refl)
  apply_policy-IsValid id g es (inr (inl e)) = rw e (_, refl)
  apply_policy-IsValid id g es (inr (inr e)) = rw e (_, refl)

  guard_effects-IsValid :
      (id : String) (es : List Effect) (regime : Option RegimeState) (o : Option RegimeGuard)
      → Known o
      → IsValid (guard_effects id es regime o)
  guard_effects-IsValid id es regime none k = (es, refl)
  guard_effects-IsValid id es regime (some g) k = elim (Bool-cases (in_regime regime g)) [
    | inl e ↦ rw e (es, refl)
    | inr e ↦ rw e (apply_policy-IsValid id g es k)
  ]

  add_if-IsValid :
      (rule : Rule V) (event : Option (EventFeature V)) (regime : Option RegimeState)
      (st : Collected V) (m : Checked Bool)
      → IsExecutable rule
      → IsValid m
      → IsValid (add_if floats arithmetic rule event regime st m)
  unfolding resolved_effects
  add_if-IsValid rule event regime st (gate_error e) x v = absurd (let same = v.1 in cc)
  add_if-IsValid rule event regime st (valid false) x v = (st, refl)
  add_if-IsValid rule event regime st (valid true) x v =
      let (es, e) = guard_effects-IsValid rule.id rule.effects regime rule.regime_guard x.known in
      rw e (_, refl)

  collect-IsValid :
      (vars : Dict V) (events : Dict (EventFeature V)) (regime : Option RegimeState)
      (rules : List (Rule V)) (st : Collected V)
      → All IsExecutable rules
      → IsValid (collect floats arithmetic vars events regime rules st)
  unfolding collect
  collect-IsValid vars events regime [] st a = (st, refl)
  collect-IsValid vars events regime (r ∷ rs) st a =
      let (st', e) =
        add_if-IsValid r (event_of floats arithmetic events r.on_trigger.event_type) regime st _ a.0
          (rule_matches-IsValid r vars a.0) in
      rw e (collect-IsValid vars events regime rs st' a.1)

  -- Rules that are executable raise no RuleGateError, for any events and in any regime.
  pub match_rules-IsValid :
      (default : V) (rules : List (Rule V)) (events : List (EventFeature V))
      (regime : Option RegimeState)
      → All IsExecutable rules
      → IsValid (match_rules floats arithmetic default rules events regime)
  unfolding match_rules
  match_rules-IsValid default rules events regime a =
      let (st, e) =
        collect-IsValid (with_vars floats arithmetic [] events)
          (by_type floats arithmetic [] events) regime rules (record { candidates = []; meta = [] })
          a in
      rw e (_, refl)
