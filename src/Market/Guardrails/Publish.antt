-- ===== src/Market/Guardrails/Publish.antt =====
-- When `validate` of src/market_state_engine/guardrails/engine.py lets a document be published.
use tread_agent.Base.{
  ◌≡◌, refl, ◌↔◌, ℕ, suc, String, Bool, true, false, not, ◌&&◌, Option, none, some, List, [], ◌∷◌,
  ◌++◌, any, is_some, All, Some, any-Some, Some-any, any-append-false, eq_iff, arith,
}
use tread_agent.Market.Numbers.{Numbers}
use tread_agent.Market.Models.{
  warning, critical, RuleActivation, CausalLink, Asset, FlagField, sentiment_of, summary_of,
  link_of, trend_of, regime_changed, MarketStateRun,
}
use tread_agent.Market.Guardrails.{
  Finding, found, is_critical, degraded_findings, check_degraded_honesty, is_activated,
  link_findings, dangling_findings, check_causal_links_resolve, check_regime_change_flag, same_bool,
  has_changed, contradicts, signals_of, trend_findings, check_trend_indicator_consistency,
  all_findings, validate, sentiment_failed, synthesis_failed,
}

unfoldable Clean : List Finding → Type 0
Clean fs = any (λ (f : Finding). is_critical f.severity) fs ≡ false

Clean-nil : Clean []
unfolding Clean
Clean-nil = refl

Clean-append : (fs gs : List Finding) → Clean (fs ++ gs) ↔ (Clean fs × Clean gs)
unfolding Clean
Clean-append fs gs = any-append-false (λ (f : Finding). is_critical f.severity) fs gs

found-critical :
    (test : Bool) (code : String) (field : FlagField)
    → Clean (found test code critical field) ↔ (test ≡ false)
unfolding Clean found
found-critical true code field = (λ h. h, λ h. h)
found-critical false code field = (λ h. refl, λ h. refl)

found_warning :
    (test : Bool) (code : String) (field : FlagField) → Clean (found test code warning field)
unfolding Clean found
found_warning true code field = refl
found_warning false code field = refl

Clean-both :
    (fs gs : List Finding) {A B : Type 0} → Clean fs ↔ A → Clean gs ↔ B → Clean (fs ++ gs) ↔ (A × B)
Clean-both fs gs f g = (
  λ h. let c = (Clean-append fs gs).0 h in (f.0 c.0, g.0 c.1),
  λ p. (Clean-append fs gs).1 (f.1 p.0, g.1 p.1),
)

iff_trans : {A B C : Type 0} → A ↔ B → B ↔ C → A ↔ C
iff_trans f g = (λ a. g.0 (f.0 a), λ c. f.1 (g.1 c))

-- The output of a job is absent if it failed.
absent_if :
    {A : Type 0} (b : Bool) (o : Option A) → ((b && is_some o) ≡ false) ↔ (b ≡ true → o ≡ none)
absent_if true none = (λ h k. refl, λ h. refl)
absent_if true (some x) = (λ h. absurd cc, λ h. absurd (let k = h refl in cc))
absent_if false o = (λ h k. absurd cc, λ h. refl)

negated_test : (b : Bool) (P : Type 0) → (b ≡ true) ↔ P → (not b ≡ false) ↔ P
negated_test true P f = (λ h. f.0 refl, λ p. refl)
negated_test false P f = (λ h. absurd cc, λ p. let k = f.1 p in absurd cc)

holds_anyway : {A : Type 0} → A → ◌↔◌ {0, 0} A Unit
holds_anyway a = (λ _. tt, λ _. a)

publish-Clean :
    (fs : List Finding) → (not (any (λ (f : Finding). is_critical f.severity) fs) ≡ true) ↔ Clean fs
unfolding Clean
publish-Clean fs = (λ h. ground arith, λ h. rw h refl)

module _ {V Stamp : Type 0} where
  -- A failed job has left no output in any asset.
  abbrev pub Honest : Bool → Bool → List (Asset V Stamp) → Type 0
  Honest no_sentiment no_synthesis assets =
      All
        (λ (a : Asset V Stamp).
          (no_sentiment ≡ true → a.scores.sentiment ≡ none)
          × (no_synthesis ≡ true → a.human_summary_fa ≡ none))
        assets

  -- One of the assets has activated the rule.
  abbrev pub Activated : List (Asset V Stamp) → String → Type 0
  Activated assets id =
      Some
        (λ (a : Asset V Stamp). Some (λ (r : RuleActivation V). r.rule_id ≡ id) a.activated_rules)
        assets

  abbrev pub Resolved : List (Asset V Stamp) → List (Asset V Stamp) → Type 0
  Resolved all assets =
      All (λ (a : Asset V Stamp). All (λ (l : CausalLink). Activated all l.via_rule) a.causal_links)
        assets

  degraded_findings-Honest :
      (b c : Bool) (i : ℕ) (assets : List (Asset V Stamp))
      → Clean (degraded_findings b c i assets) ↔ Honest b c assets
  unfolding degraded_findings
  degraded_findings-Honest b c i [] = (λ h. tt, λ h. Clean-nil)
  degraded_findings-Honest b c i (a ∷ assets) =
      let mine =
        Clean-both _ _
          (Clean-both _ _
            (iff_trans
              (found-critical (b && is_some a.scores.sentiment) "degraded_sentiment_present"
                (sentiment_of i))
              (absent_if b a.scores.sentiment))
            (iff_trans
              (found-critical (c && is_some a.human_summary_fa) "degraded_summary_present"
                (summary_of i))
              (absent_if c a.human_summary_fa)))
          (degraded_findings-Honest b c (suc i) assets) in
      mine

  is_activated-Activated :
      (assets : List (Asset V Stamp)) (id : String)
      → (not (is_activated assets id) ≡ false) ↔ Activated assets id
  is_activated-Activated assets id = negated_test (is_activated assets id) (Activated assets id) (
    any-Some _ _ (λ a. any-Some _ _ (λ r. (eq_iff r.rule_id id).0) a.activated_rules) assets,
    Some-any _ _ (λ a. Some-any _ _ (λ r. (eq_iff r.rule_id id).1) a.activated_rules) assets,
  )

  link_findings-All :
      (all : List (Asset V Stamp)) (i j : ℕ) (ls : List CausalLink)
      → Clean (link_findings (is_activated all) i j ls)
        ↔ All (λ (l : CausalLink). Activated all l.via_rule) ls
  unfolding link_findings
  link_findings-All all i j [] = (λ h. tt, λ h. Clean-nil)
  link_findings-All all i j (l ∷ ls) =
      Clean-both _ _
        (iff_trans
          (found-critical (not (is_activated all l.via_rule)) "dangling_causal_link" (link_of i j))
          (is_activated-Activated all l.via_rule))
        (link_findings-All all i (suc j) ls)

  dangling_findings-Resolved :
      (all : List (Asset V Stamp)) (i : ℕ) (assets : List (Asset V Stamp))
      → Clean (dangling_findings (is_activated all) i assets) ↔ Resolved all assets
  unfolding dangling_findings
  dangling_findings-Resolved all i [] = (λ h. tt, λ h. Clean-nil)
  dangling_findings-Resolved all i (a ∷ assets) =
      Clean-both _ _ (link_findings-All all i 0 a.causal_links)
        (dangling_findings-Resolved all (suc i) assets)

  module _ (n : Numbers V) where
    trend_findings-Clean :
        (i : ℕ) (assets : List (Asset V Stamp)) → Clean (trend_findings n i assets)
    unfolding trend_findings
    trend_findings-Clean i [] = Clean-nil
    trend_findings-Clean i (a ∷ assets) = (Clean-append _ _).1 (
      found_warning (contradicts n (signals_of a.indicators) a.scores.trend)
          "trend_indicator_contradiction" (trend_of i),
      trend_findings-Clean (suc i) assets,
    )

    -- A document may be published exactly when each asset lacks the outputs of the jobs that the flags,
    -- or is_degraded without such flags, call failed, and the rule of every causal link has been
    -- activated for an asset of the run.
    pub validate_publishes :
        (run : MarketStateRun V Stamp)
        → ((validate n run).publish ≡ true) ↔ (
            Honest (sentiment_failed run) (synthesis_failed run) run.assets
            × Resolved run.assets run.assets)
    unfolding validate all_findings check_degraded_honesty check_causal_links_resolve
        check_trend_indicator_consistency check_regime_change_flag
    validate_publishes run =
        let all =
          Clean-both _ _
            (Clean-both _ _
              (Clean-both _ _
                (degraded_findings-Honest (sentiment_failed run) (synthesis_failed run) 0
                  run.assets)
                (dangling_findings-Resolved run.assets 0 run.assets))
              (holds_anyway (trend_findings-Clean 0 run.assets)))
            (holds_anyway (
              found_warning
                (not (
                  same_bool run.regime.changed_this_run
                    (has_changed run.regime.state run.regime.previous_state)))
                "regime_change_flag_inconsistent" regime_changed)) in
        (
          λ h. (all.0 ((publish-Clean (all_findings n run)).0 h)).0.0,
          λ p. (publish-Clean (all_findings n run)).1 (all.1 ((p, tt), tt)),
        )
