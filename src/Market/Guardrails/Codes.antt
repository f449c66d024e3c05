-- ===== src/Market/Guardrails/Codes.antt =====
-- The codes of the findings of src/market_state_engine/guardrails/checks.py, and the flags that
-- `validate` adds.
use tread_agent.Base.{
  ◌≡◌, refl, ◌∙◌, ℕ, suc, String, Bool, true, false, ◌||◌, List, [], ◌∷◌, ◌++◌, map, any,
  any-append, any-append-false, arith, str_eq,
}
use tread_agent.Market.Numbers.{Numbers}
use tread_agent.Market.Models.{
  Severity, CausalLink, Asset, FlagField, GuardrailFlag, MarketStateRun,
}
use tread_agent.Market.Guardrails.{
  Finding, found, has_code, degraded_findings, check_degraded_honesty, link_findings,
  dangling_findings, check_causal_links_resolve, check_regime_change_flag, trend_findings,
  check_trend_indicator_consistency, all_findings, to_flag, validate,
}

or_false : (b : Bool) → (b || false) ≡ b
or_false true = refl
or_false false = refl

module _ (code : String) where
  unfoldable Others : List Finding → Type 0
  Others fs = any (λ (f : Finding). str_eq f.code code) fs ≡ false

  Others-nil : Others []
  unfolding Others
  Others-nil = refl

  Others-append : (fs gs : List Finding) → Others fs → Others gs → Others (fs ++ gs)
  unfolding Others
  Others-append fs gs f g = (any-append-false (λ (x : Finding). str_eq x.code code) fs gs).1 (f, g)

  Others-found :
      (test : Bool) (c : String) (severity : Severity) (field : FlagField)
      → str_eq c code ≡ false
      → Others (found test c severity field)
  unfolding Others found
  Others-found true c severity field h = rw h refl
  Others-found false c severity field h = refl

  any_flag : (fs : List Finding) → Others fs → has_code code (map to_flag fs) ≡ false
  unfolding has_code Others
  any_flag [] a = refl
  any_flag (f ∷ fs) a = ground (arith, any_flag fs)

  -- It is none of the codes of the checks.
  pub record IsForeign : Type 0 where
    pub honesty : str_eq "degraded_sentiment_present" code ≡ false
    pub summary : str_eq "degraded_summary_present" code ≡ false
    pub link : str_eq "dangling_causal_link" code ≡ false
    pub trend : str_eq "trend_indicator_contradiction" code ≡ false
    pub regime : str_eq "regime_change_flag_inconsistent" code ≡ false

  link-Others :
      (o : IsForeign) (t : String → Bool) (i j : ℕ) (ls : List CausalLink)
      → Others (link_findings t i j ls)
  unfolding link_findings
  link-Others o t i j [] = Others-nil
  link-Others o t i j (l ∷ ls) =
      Others-append _ _ (Others-found _ _ _ _ o.link) (link-Others o t i (suc j) ls)

  module _ {V Stamp : Type 0} (o : IsForeign) where
    degraded-Others :
        (b c : Bool) (i : ℕ) (assets : List (Asset V Stamp))
        → Others (degraded_findings b c i assets)
    unfolding degraded_findings
    degraded-Others b c i [] = Others-nil
    degraded-Others b c i (a ∷ assets) =
        Others-append _ _
          (Others-append _ _ (Others-found _ _ _ _ o.honesty) (Others-found _ _ _ _ o.summary))
          (degraded-Others b c (suc i) assets)

    dangling-Others :
        (t : String → Bool) (i : ℕ) (assets : List (Asset V Stamp))
        → Others (dangling_findings t i assets)
    unfolding dangling_findings
    dangling-Others t i [] = Others-nil
    dangling-Others t i (a ∷ assets) =
        Others-append _ _ (link-Others o t i 0 a.causal_links) (dangling-Others t (suc i) assets)

    trend-Others :
        (n : Numbers V) (i : ℕ) (assets : List (Asset V Stamp)) → Others (trend_findings n i assets)
    unfolding trend_findings
    trend-Others n i [] = Others-nil
    trend-Others n i (a ∷ assets) =
        Others-append _ _ (Others-found _ _ _ _ o.trend) (trend-Others n (suc i) assets)

    findings-Others : (n : Numbers V) (run : MarketStateRun V Stamp) → Others (all_findings n run)
    unfolding all_findings check_degraded_honesty check_causal_links_resolve
        check_trend_indicator_consistency check_regime_change_flag
    findings-Others n run =
        Others-append _ _
          (Others-append _ _
            (Others-append _ _ (degraded-Others _ _ 0 run.assets) (dangling-Others _ 0 run.assets))
            (trend-Others n 0 run.assets))
          (Others-found _ _ _ _ o.regime)

    -- `validate` adds no flag of another code.
    pub has_code-validate :
        (n : Numbers V) (run : MarketStateRun V Stamp)
        → has_code code (validate n run).flags ≡ has_code code run.guardrail_flags
    unfolding validate has_code
    has_code-validate n run =
        any-append (λ (f : GuardrailFlag). str_eq f.code code) run.guardrail_flags
          (map to_flag (all_findings n run))
        ∙ rw (any_flag (all_findings n run) (findings-Others n run))
            (or_false (any (λ (f : GuardrailFlag). str_eq f.code code) run.guardrail_flags))
