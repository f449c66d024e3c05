-- ===== src/Market/Assembly/Honest.antt =====
-- What holds of the document that src/market_state_engine/assembly/deterministic_state.py assembles,
-- from scores of the same features.
use tread_agent.Base.{
  ◌≡◌, ◌⊎◌, Bool, true, refl, subst, ◌∙◌, inl, inr, String, false, Option, none, some, List, [],
  ◌∷◌, map, All, Some, All-map, Bool-cases, Option-cases, String-cases,
}
use tread_agent.Base.Dict.{Dict, lookup}
use tread_agent.Rules.Models.{is_neutral}
use tread_agent.Rules.Activations.{Activation, or_nothing}
use tread_agent.Market.Numbers.{Numbers, Truncated, not_finite, below_zero, whole}
use tread_agent.Pipeline.Store.{Ended, returned, raised}
use tread_agent.Rules.Models.{RegimeState}
use tread_agent.Market.Ranges.{and_then, accepted, regime_fits, scores_fit, asset_fits}
use tread_agent.Market.Models.{
  RuleActivation, CausalLink, Asset, GuardrailFlag, MarketStateRun, AssetFeatures, FeatureSet,
  PriceSnapshot, AssetConfig, RunContext,
}
use tread_agent.Market.Scoring.{
  ScoredAsset, ScoringResult, score_all, score_asset, scored_of, score, nearest_event_proximity,
}
use tread_agent.Market.Guardrails.{has_code, validate}
use tread_agent.Market.Guardrails.Codes.{IsForeign, has_code-validate}
use tread_agent.Market.Assembly.{
  asset_of, with_asset, assets_of, candidate, with_findings, assemble, fear_greed_of, global_with,
  global_of,
}
use tread_agent.Market.Fields.{degraded_run, rule_activation, causal_links, regime_of}

module _ {V Stamp : Type 0} where
  -- No asset has an output of a language model.
  abbrev pub Bare : List (Asset V Stamp) → Type 0
  Bare assets =
      All (λ (a : Asset V Stamp). (a.scores.sentiment ≡ none) × (a.human_summary_fa ≡ none)) assets

  -- The rules of the links of an asset are among those that are activated for it.
  abbrev pub Links : Asset V Stamp → Type 0
  Links a =
      All
        (λ (l : CausalLink).
          Some (λ (r : RuleActivation V). r.rule_id ≡ l.via_rule) a.activated_rules)
        a.causal_links

  abbrev pub SelfResolved : List (Asset V Stamp) → Type 0
  SelfResolved assets = All Links assets

-- No flag names a failed job.
abbrev pub Unscoped : List GuardrailFlag → Type 0
Unscoped flags =
    (has_code "sentiment_degraded" flags ≡ false) × (has_code "synthesis_degraded" flags ≡ false)

pub record IsBase {V Stamp : Type 0} (run : MarketStateRun V Stamp) : Type 0 where
  pub bare : Bare run.assets
  pub links : SelfResolved run.assets
  pub unscoped : Unscoped run.guardrail_flags

links_resolve :
    {V : Type 0} (symbol : String) (acts : List (Activation V))
    → All
        (λ (l : CausalLink).
          Some (λ (r : RuleActivation V). r.rule_id ≡ l.via_rule) (map rule_activation acts))
        (causal_links symbol acts)
unfolding causal_links
links_resolve symbol [] = tt
links_resolve symbol (a ∷ acts) = elim (Bool-cases (is_neutral a.direction)) [
  | inl e ↦ rw e (All-map _ _ (λ l s. inr s) (causal_links symbol acts) (links_resolve symbol acts))
  | inr e ↦
      rw e (
        inl refl,
        All-map _ _ (λ l s. inr s) (causal_links symbol acts) (links_resolve symbol acts),
      )
]

sentiment_foreign : IsForeign "sentiment_degraded"
sentiment_foreign = record {
  honesty = refl;
  summary = refl;
  link = refl;
  trend = refl;
  regime = refl;
}

synthesis_foreign : IsForeign "synthesis_degraded"
synthesis_foreign = record {
  honesty = refl;
  summary = refl;
  link = refl;
  trend = refl;
  regime = refl;
}

-- The checks name no failed job.
pub validate-Unscoped :
    {V Stamp : Type 0} (n : Numbers V) (run : MarketStateRun V Stamp)
    → (has_code "sentiment_degraded" (validate n run).flags
        ≡ has_code "sentiment_degraded" run.guardrail_flags)
      × (has_code "synthesis_degraded" (validate n run).flags
          ≡ has_code "synthesis_degraded" run.guardrail_flags)
validate-Unscoped n run = (
  has_code-validate "sentiment_degraded" sentiment_foreign n run,
  has_code-validate "synthesis_degraded" synthesis_foreign n run,
)

-- It returns a value with `Q`, or raises a `ValidationError`.
pub data Ends {A : Type 0} (Q : A → Type 0) : Ended A → Type 0 where
  gives : (a : A) → Q a → Ends Q (returned a)
  refuses : Ends Q (raised "ValidationError")

and_then-Ends :
    {A B : Type 0} (Q : A → Type 0) (R : B → Type 0) (o : Ended A) (k : A → Ended B)
    → Ends Q o
    → ((a : A) → Q a → Ends R (k a))
    → Ends R (and_then o k)
and_then-Ends Q R (returned a) k (gives _ q) f = f a q
and_then-Ends Q R (raised _) k refuses f = refuses

accepted-gives :
    {A : Type 0} {Q : A → Type 0} (fits : Bool) (a : A) → Q a → Ends Q (accepted fits a)
accepted-gives true a q = gives a q
accepted-gives false a q = refuses

accepted-Ends : {A : Type 0} (fits : Bool) (a : A) → Ends (λ (x : A). x ≡ a) (accepted fits a)
accepted-Ends fits a = accepted-gives fits a refl

-- Each scored symbol has features.
abbrev pub Scored : {V : Type 0} → Dict (AssetFeatures V) → Dict (ScoredAsset V) → Type 0
Scored features scored =
    (symbol : String) (s : _)
    → lookup symbol scored ≡ some s
    → (f : _) × (lookup symbol features ≡ some f)

module _ {V : Type 0} (n : Numbers V) where
  score_all-Scored :
      (w : Dict V) (sentiment : Option (Dict V)) (p : Option V) (cfg : Dict AssetConfig)
      (features : Dict (AssetFeatures V))
      → Ends (Scored features) (score_all n w sentiment p cfg features)
  unfolding score_all score_asset lookup
  score_all-Scored w sentiment p [] features = gives [] (λ symbol s h. absurd cc)
  score_all-Scored w sentiment p ((k, c) ∷ cfg) features = elim (Option-cases (lookup k features)) [
    | inl e ↦ rw e (score_all-Scored w sentiment p cfg features)
    | inr (f, e) ↦ rw e (
        and_then-Ends (λ s'. s' ≡ scored_of n w sentiment p k c f) (Scored features)
          (accepted (scores_fit n (scored_of n w sentiment p k c f).scores)
            (scored_of n w sentiment p k c f))
          (λ s'. and_then (score_all n w sentiment p cfg features) (λ ss. returned ((k, s') ∷ ss)))
          (accepted-Ends _ _)
          (λ s' _.
            and_then-Ends (Scored features) (Scored features)
              (score_all n w sentiment p cfg features) (λ ss. returned ((k, s') ∷ ss))
              (score_all-Scored w sentiment p cfg features)
              (λ ss here. gives ((k, s') ∷ ss) (at s' ss f e here))))
  ]
    where
      at :
          (s' : ScoredAsset V) (ss : Dict (ScoredAsset V)) (f : AssetFeatures V)
          → lookup k features ≡ some f
          → Scored features ss
          → Scored features ((k, s') ∷ ss)
      at s' ss f e here symbol s h = elim (String-cases k symbol) [
        | inl (b, q) ↦ (f, subst (λ z. lookup z features ≡ some f) q e)
        | inr (b, q) ↦ here symbol s (rw b at h)
      ]

  -- The scoring returns scores of assets that have features, or raises a ValidationError.
  pub score-Ends :
      (w : Dict V) (cfg : Dict AssetConfig) (features : FeatureSet V)
      (previous : Option RegimeState) (sentiment : Option (Dict V))
      → Ends
          (λ (r : ScoringResult V). Scored features.per_asset r.per_asset)
          (score n w cfg features previous sentiment)
  unfolding score
  score-Ends w cfg features previous sentiment =
      and_then-Ends (Scored features.per_asset) _ _ _
        (score_all-Scored w sentiment (nearest_event_proximity n features.event_features) cfg
          features.per_asset)
        (λ ss here. accepted-gives _ _ here)

with_degraded : (flags : List GuardrailFlag) → Unscoped flags → Unscoped (degraded_run ∷ flags)
unfolding has_code
with_degraded flags v = v

module _ {V Stamp : Type 0} (n : Numbers V) (epoch : Stamp)
    (activations : Dict (List (Activation V))) (prices : Dict (PriceSnapshot V Stamp)) where
  with_asset-Ends :
      (symbol : String) (cfg : AssetConfig) (s : Option (ScoredAsset V))
      (f : Option (AssetFeatures V)) (rest : Ended (List (Asset V Stamp)))
      → ((s' : ScoredAsset V) → s ≡ some s' → (f' : AssetFeatures V) × (f ≡ some f'))
      → Ends (λ (as' : List (Asset V Stamp)). Bare as' × SelfResolved as') rest
      → Ends
          (λ (as' : List (Asset V Stamp)). Bare as' × SelfResolved as')
          (with_asset n epoch activations prices symbol cfg s f rest)
  unfolding asset_of
  with_asset-Ends symbol cfg none f rest here b = b
  with_asset-Ends symbol cfg (some s) none rest here b = absurd (let p = (here s refl).1 in cc)
  with_asset-Ends symbol cfg (some s) (some f) rest here b =
      and_then-Ends
        (λ (a : Asset V Stamp).
          ((a.scores.sentiment ≡ none) × (a.human_summary_fa ≡ none)) × Links a)
        _
        (accepted (asset_fits n (asset_of n epoch activations prices symbol cfg f s))
          (asset_of n epoch activations prices symbol cfg f s))
        (λ a. and_then rest (λ as'. returned (a ∷ as')))
        (accepted-gives _ _
          ((refl, refl), links_resolve symbol (or_nothing (lookup symbol activations))))
        (λ a q.
          and_then-Ends _ _ rest (λ as'. returned (a ∷ as')) b
            (λ as' r. gives (a ∷ as') ((q.0, r.0), (q.1, r.1))))

  assets_of-Ends :
      (cfg : Dict AssetConfig) (features : Dict (AssetFeatures V)) (scored : Dict (ScoredAsset V))
      → Scored features scored
      → Ends
          (λ (as' : List (Asset V Stamp)). Bare as' × SelfResolved as')
          (assets_of n epoch activations prices cfg features scored)
  unfolding assets_of
  assets_of-Ends [] features scored h = gives [] (tt, tt)
  assets_of-Ends ((symbol, c) ∷ cfg) features scored h =
      with_asset-Ends symbol c (lookup symbol scored) (lookup symbol features) _ (h symbol)
        (assets_of-Ends cfg features scored h)

  with_findings-IsBase :
      (made : MarketStateRun V Stamp)
      → Bare made.assets
      → SelfResolved made.assets
      → Unscoped made.guardrail_flags
      → IsBase (with_findings n epoch made)
  unfolding with_findings
  with_findings-IsBase made b r v =
      let (p, q) = validate-Unscoped n made in
      record { bare = b; links = r; unscoped = (p ∙ v.0, q ∙ v.1) }

  -- The assembly of scores of the same features returns such a document, or raises a ValidationError,
  -- or what int() raises for the value of fear and greed.
  pub assemble-Ends :
      (rulebook_version mhi_version : String) (cfg : Dict AssetConfig) (ctx : RunContext Stamp)
      (features : FeatureSet V) (scoring : ScoringResult V) (flags : List GuardrailFlag)
      → Unscoped flags
      → Scored features.per_asset scoring.per_asset
      → Ends
          (λ (run : MarketStateRun V Stamp). IsBase run)
          (assemble n epoch rulebook_version mhi_version cfg ctx features scoring activations flags
            prices)
        ⊎ ((x : String) × (fear_greed_of n epoch features ≡ not_finite x)
            × (assemble n epoch rulebook_version mhi_version cfg ctx features scoring activations
                  flags prices
                ≡ raised x))
  unfolding assemble candidate global_of
  assemble-Ends rulebook_version mhi_version cfg ctx features scoring flags u h =
      made (assets_of n epoch activations prices cfg features.per_asset scoring.per_asset)
        (regime_fits n (regime_of scoring.regime)) (fear_greed_of n epoch features) refl
        (assets_of-Ends cfg features.per_asset scoring.per_asset h)
    where
      rest : List (Asset V Stamp) → Bool → Truncated → Ended (MarketStateRun V Stamp)
      rest assets fits t = and_then (accepted fits (regime_of scoring.regime)) (λ _.
          and_then (global_with n epoch features t) (λ overall. returned (
            with_findings n epoch (
              candidate n epoch activations prices rulebook_version mhi_version ctx features scoring
                flags assets overall))))

      made :
          (o : Ended (List (Asset V Stamp))) (fits : Bool) (t : Truncated)
          → fear_greed_of n epoch features ≡ t
          → Ends (λ (as' : List (Asset V Stamp)). Bare as' × SelfResolved as') o
          → Ends
              (λ (run : MarketStateRun V Stamp). IsBase run)
              (and_then o (λ assets. rest assets fits t))
            ⊎ ((x : String) × (fear_greed_of n epoch features ≡ not_finite x)
                × (and_then o (λ assets. rest assets fits t) ≡ raised x))
      made (raised _) fits t e refuses = inl refuses
      made (returned assets) false t e (gives _ b) = inl refuses
      made (returned assets) true (not_finite x) e (gives _ b) = inr (x, e, refl)
      made (returned assets) true below_zero e (gives _ b) = inl refuses
      made (returned assets) true (whole k) e (gives _ b) = inl (
          and_then-Ends (λ _. Unit) _ (global_with n epoch features (whole k))
            (λ overall. returned (
              with_findings n epoch (
                candidate n epoch activations prices rulebook_version mhi_version ctx features
                  scoring flags assets overall)))
            (accepted-gives _ _ tt)
            (λ overall _. gives _ (with_findings-IsBase _ b.0 b.1 (with_degraded flags u))))
