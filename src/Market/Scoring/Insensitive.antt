-- ===== src/Market/Scoring/Insensitive.antt =====
-- Assets of low sensitivity and the regime of src/market_state_engine/scoring/regime.py.
use tread_agent.Base.{
  ◌≡◌, refl, sym, ap, ◌∙◌, ◌⊎◌, inl, inr, String, true, Option, none, some, List, [], ◌∷◌, All,
  Bool-cases,
}
use tread_agent.Base.Dict.{Dict, lookup}
use tread_agent.Rules.Models.{RegimeState}
use tread_agent.Market.Numbers.{Numbers}
use tread_agent.Market.Models.{AssetFeatures, FeatureSet, AssetConfig}
use tread_agent.Market.Scoring.Regimes.{
  AssetRegimeInput, RegimeResult, is_low, sensitive_of, classified, reading, trend_concordance,
  active_material_event, classify,
}
use tread_agent.Pipeline.Store.{Ended, returned, raised}
use tread_agent.Market.Ranges.{and_then, accepted, in_unit}
use tread_agent.Market.Scoring.{
  ScoredAsset, ScoringResult, with_input, inputs_of, regime_input, score_all,
  nearest_event_proximity, score,
}

returned-injective : {A : Type 0} {a b : A} → returned a ≡ returned b → a ≡ b
returned-injective h = cc

module _ {V : Type 0} (n : Numbers V) where
  -- They have the same features for the asset, unless its sensitivity is low.
  abbrev pub AgreeOn : (f g : Dict (AssetFeatures V)) → String × AssetConfig → Type 0
  AgreeOn f g e = (is_low e.1.regime_sensitivity ≡ true) ⊎ (lookup e.0 f ≡ lookup e.0 g)

  module _ (w : Dict V) (s : Option (Dict V)) (p : Option V) where
    low_dropped :
        (symbol : String) (cfg : AssetConfig) (f : Option (AssetFeatures V))
        (rest : List (AssetRegimeInput V))
        → is_low cfg.regime_sensitivity ≡ true
        → sensitive_of n (with_input n w s p symbol cfg f rest) ≡ sensitive_of n rest
    unfolding regime_input
    low_dropped symbol cfg none rest h = refl
    low_dropped symbol cfg (some f) rest h = rw h refl

    kept_alike :
        (symbol : String) (cfg : AssetConfig) (f : Option (AssetFeatures V))
        (rest rest' : List (AssetRegimeInput V))
        → sensitive_of n rest ≡ sensitive_of n rest'
        → sensitive_of n (with_input n w s p symbol cfg f rest)
          ≡ sensitive_of n (with_input n w s p symbol cfg f rest')
    unfolding regime_input
    kept_alike symbol cfg none rest rest' h = h
    kept_alike symbol cfg (some f) rest rest' h =
        elim (Bool-cases (is_low cfg.regime_sensitivity)) [
          | inl e ↦ rw e h
          | inr e ↦ rw e (ap (λ xs. regime_input n w s p symbol cfg f ∷ xs) h)
        ]

    inputs_alike :
        (assets : Dict AssetConfig) (f g : Dict (AssetFeatures V))
        → All (AgreeOn f g) assets
        → sensitive_of n (inputs_of n w s p assets f) ≡ sensitive_of n (inputs_of n w s p assets g)
    unfolding inputs_of
    inputs_alike [] f g a = refl
    inputs_alike ((symbol, cfg) ∷ assets) f g a =
        let rest = inputs_alike assets f g a.1 in
        elim a.0 [
          | inl e ↦
              low_dropped symbol cfg (lookup symbol f) (inputs_of n w s p assets f) e
              ∙ rest
              ∙ sym (low_dropped symbol cfg (lookup symbol g) (inputs_of n w s p assets g) e)
          | inr e ↦ rw e (
              kept_alike symbol cfg (lookup symbol g) (inputs_of n w s p assets f)
                (inputs_of n w s p assets g) rest)
        ]

  -- What the scoring returns has the regime that is classified.
  score-regime :
      (w : Dict V) (assets : Dict AssetConfig) (f : FeatureSet V) (previous : Option RegimeState)
      (s : Option (Dict V)) (r : ScoringResult V)
      → score n w assets f previous s ≡ returned r
      → r.regime
        ≡ classify n
            (inputs_of n w s (nearest_event_proximity n f.event_features) assets f.per_asset)
            f.event_features
            previous
  unfolding score
  score-regime w assets f previous s r h =
      scored (score_all n w s (nearest_event_proximity n f.event_features) assets f.per_asset) h
    where
      regime : RegimeResult V
      regime =
          classify n
            (inputs_of n w s (nearest_event_proximity n f.event_features) assets f.per_asset)
            f.event_features previous

      scored :
          (o : Ended (Dict (ScoredAsset V)))
          → and_then o (λ per_asset.
            accepted
              (in_unit n regime.confidence)
              (record { per_asset = per_asset; regime = regime }))
            ≡ returned r
          → r.regime ≡ regime
      scored (raised x) k = absurd cc
      scored (returned ss) k = elim (Bool-cases (in_unit n regime.confidence)) [
        | inl e ↦
            let same = returned-injective (rw e at k) in
            sym (ap (λ (q : ScoringResult V). q.regime) same)
        | inr e ↦ absurd (let k' = rw e at k in cc)
      ]

  -- The regime does not depend on the features of assets of low sensitivity: with the same events the
  -- scoring gives the same regime, where it returns, for features that agree on the other assets.
  pub score_insensitive :
      (w : Dict V) (assets : Dict AssetConfig) (f g : FeatureSet V) (previous : Option RegimeState)
      (s : Option (Dict V)) (a b : ScoringResult V)
      → f.event_features ≡ g.event_features
      → All (AgreeOn f.per_asset g.per_asset) assets
      → score n w assets f previous s ≡ returned a
      → score n w assets g previous s ≡ returned b
      → a.regime ≡ b.regime
  unfolding classify
  score_insensitive w assets f g previous s a b e agree h k =
      let p = nearest_event_proximity n g.event_features in
      let alike = inputs_alike w s p assets f.per_asset g.per_asset agree in
      score-regime w assets f previous s a h
      ∙ rw e (
          ap
            (λ xs.
              classified n previous (trend_concordance n xs)
                (reading n xs (active_material_event n g.event_features)))
            alike)
      ∙ sym (score-regime w assets g previous s b k)
