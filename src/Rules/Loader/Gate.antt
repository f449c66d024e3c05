-- ===== src/Rules/Loader/Gate.antt =====
-- What a rulebook that src/market_state_engine/rules/loader.py has loaded satisfies.
use tread_agent.Base.{
  ◌≡◌, refl, ap, sym, ◌∙◌, subst, String, true, false, Option, none, some, List, [], ◌∷◌, map, any,
  All, is_some, or_else, str_eq, arith, Bool-cases, inl, inr, ◌⊎◌,
}
use tread_agent.Pipeline.Store.{us_cpi}
use tread_agent.Rules.Models.{
  RegimeState, RegimeGuard, Effect, Rule, Checked, valid, gate_error, RuleGateError,
}
use tread_agent.Rules.Matcher.{
  resolved_effects, guard_effects, apply_policy, in_regime, downgrade, make_uncertain,
}
use tread_agent.Rules.Loader.{
  is_open, is_cpi, or_then, gated, lint_gold_cpi, lint_signoff, lint_surprise, validate_rule,
  load_rules,
}

-- In a regime of the rule's guard.
abbrev pub Inside : {V : Type 0} → Rule V → Option RegimeState → Type 0
Inside rule regime = (g : RegimeGuard) × (rule.regime_guard ≡ some g) × (in_regime regime g ≡ true)

-- Marked as uncertain, if it is on gold.
abbrev pub Cautious : Effect → Type 0
Cautious e = str_eq e.asset "GOLD" ≡ true → or_else e.uncertain false ≡ true

closed-Cautious : (es : List Effect) → any is_open es ≡ false → All Cautious es
closed-Cautious [] h = tt
closed-Cautious (e ∷ es) h =
    ((λ gold. ground (arith, h, gold)), closed-Cautious es (ground (arith, h)))

downgrade-Cautious : (es : List Effect) → All Cautious (map downgrade es)
downgrade-Cautious [] = tt
downgrade-Cautious (e ∷ es) = ((λ _. refl), downgrade-Cautious es)

make_uncertain-Cautious : (es : List Effect) → All Cautious (map make_uncertain es)
make_uncertain-Cautious [] = tt
make_uncertain-Cautious (e ∷ es) = ((λ _. refl), make_uncertain-Cautious es)

valid-injective : {A : Type 0} {a b : A} → valid a ≡ valid b → a ≡ b
valid-injective h = cc

apply_policy-Cautious :
    (rule_id policy : String) (effects es : List Effect)
    → apply_policy rule_id policy effects ≡ valid es
    → All Cautious es
unfolding apply_policy
apply_policy-Cautious rule_id policy effects es h = elim (Bool-cases (str_eq policy "suppress")) [
  | inl a ↦
      let same : [] ≡ es = valid-injective (ground (arith, h, a)) in subst (All Cautious) same tt
  | inr a ↦ elim (Bool-cases (str_eq policy "downgrade_to_minor")) [
    | inl b ↦
        let same : map downgrade effects ≡ es = valid-injective (ground (arith, h, a, b)) in
        subst (All Cautious) same (downgrade-Cautious effects)
    | inr b ↦ elim (Bool-cases (str_eq policy "flag_uncertain")) [
      | inl c ↦
          let same : map make_uncertain effects ≡ es =
            valid-injective (ground (arith, h, a, b, c)) in
          subst (All Cautious) same (make_uncertain-Cautious effects)
      | inr c ↦ absurd (ground (arith, h, a, b, c))
    ]
  ]
]

or_then-none : (x y : Option RuleGateError) → or_then x y ≡ none → (x ≡ none) × (y ≡ none)
or_then-none none y h = (refl, h)
or_then-none (some x) y h = absurd cc

module _ {V : Type 0} where
  gold_closed :
      (rule : Rule V)
      → validate_rule rule ≡ none
      → rule.on_trigger.event_type ≡ some us_cpi
      → rule.regime_guard ≡ none
      → any is_open rule.effects ≡ false
  unfolding validate_rule lint_gold_cpi
  gold_closed rule h cpi free =
      let gold =
        (or_then-none (lint_surprise rule) (lint_gold_cpi rule)
          (or_then-none (lint_signoff rule) _ h).1).1 in
      ground (arith, gold, ap is_cpi cpi, ap is_some free)

  guard_effects-Cautious :
      (rule : Rule V) (regime : Option RegimeState) (es : List Effect)
      → (o : Option RegimeGuard) → rule.regime_guard ≡ o
      → (o ≡ none → any is_open rule.effects ≡ false)
      → guard_effects rule.id rule.effects regime o ≡ valid es
      → Inside rule regime ⊎ All Cautious es
  guard_effects-Cautious rule regime es none e closed h =
      let same : rule.effects ≡ es = valid-injective h in
      inr (subst (All Cautious) same (closed-Cautious rule.effects (closed refl)))
  guard_effects-Cautious rule regime es (some g) e closed h =
      elim (Bool-cases (in_regime regime g)) [
        | inl a ↦ inl (g, e, a)
        | inr a ↦
            inr (apply_policy-Cautious rule.id g.otherwise rule.effects es (ground (arith, h, a)))
      ]

  -- A CPI rule that passed the gate gives gold only effects that are marked as uncertain, unless the
  -- regime is one of its guard's.
  pub resolved_effects-Cautious :
      (rule : Rule V) (regime : Option RegimeState) (es : List Effect)
      → validate_rule rule ≡ none
      → rule.on_trigger.event_type ≡ some us_cpi
      → resolved_effects rule regime ≡ valid es
      → Inside rule regime ⊎ All Cautious es
  unfolding resolved_effects
  resolved_effects-Cautious rule regime es h cpi ran =
      guard_effects-Cautious rule regime es rule.regime_guard refl (gold_closed rule h cpi) ran

  -- No id of the list is one of `seen`, and none stands twice.
  abbrev pub FreshIds : List String → List (Rule V) → Type 0
  FreshIds seen [] = Unit
  FreshIds seen (r ∷ rs) = (any (str_eq r.id) seen ≡ false) × FreshIds (r.id ∷ seen) rs

  gated-valid :
      (x : Option RuleGateError) (rest : Checked (List (Rule V))) (r : Rule V) (out : List (Rule V))
      → gated x rest r ≡ valid out
      → (rs : List (Rule V)) × (x ≡ none) × (rest ≡ valid rs) × (out ≡ r ∷ rs)
  gated-valid (some x) rest r out h = absurd cc
  gated-valid none (gate_error x) r out h = absurd cc
  gated-valid none (valid rs) r out h = (rs, refl, refl, sym (valid-injective h))

  -- A rulebook that loads is the rules of the files, in their order; each has passed the gate, and no
  -- rule id stands twice or among those seen before.
  pub load_rules-FreshIds :
      (seen : List String) (rules out : List (Rule V))
      → load_rules seen rules ≡ valid out
      → (out ≡ rules) × All (λ r. validate_rule r ≡ none) rules × FreshIds seen rules
  unfolding load_rules
  load_rules-FreshIds seen [] out h = (sym (valid-injective h), tt, tt)
  load_rules-FreshIds seen (r ∷ rules) out h =
      let (rs, passed, loaded, same) = gated-valid _ _ r out h in
      let (rest, all, fresh) = load_rules-FreshIds (r.id ∷ seen) rules rs loaded in
      let (gate, new) = or_then-none _ _ passed in
      (same ∙ ap (λ qs. r ∷ qs) rest, (gate, all), (ground (arith, new), fresh))
