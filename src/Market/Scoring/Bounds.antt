-- ===== src/Market/Scoring/Bounds.antt =====
-- The ranges of the scores of src/market_state_engine/scoring, which core/models.py demands, and for
-- which assets there are scores.
use tread_agent.Base.{
  ◌≤◌, ◌≡◌, ◌⊎◌, refl, true, false, none, some, Some, inl, inr, String, Option, [], ◌∷◌, All, arith,
  Bool-cases, Option-cases,
}
use tread_agent.Base.Dict.{Dict, lookup}
use tread_agent.Rules.Models.{RegimeState}
use tread_agent.Market.Numbers.{
  Numbers, IsOrdered, Between, zero_point, one_point, minus_one, clamped-Between, round4-unit,
  round4-signed, sum, weights_of, products,
}
use tread_agent.Market.Models.{AssetFeatures, FeatureSet, AssetConfig}
use tread_agent.Market.Scoring.Signals.{
  trend_score, risk_score, system_confidence, market_health_index, health_pairs,
}
use tread_agent.Market.Scoring.Regimes.{classify}
use tread_agent.Market.Ranges.{within}
use tread_agent.Pipeline.Store.{returned, raised}
use tread_agent.Market.Scoring.{
  ScoredAsset, ScoringResult, sentiment_for, scored_of, score_asset, score_all, inputs_of,
  nearest_event_proximity, score,
}

module _ {V : Type 0} (n : Numbers V) where
  -- A sentiment that there is lies in [-1, 1].
  abbrev pub Moderate : Option V → Type 0
  Moderate none = Unit
  Moderate (some s) = Between n (minus_one n) (one_point n) s

  pub record IsInRange (s : ScoredAsset V) : Type 0 where
    pub trend : Between n (minus_one n) (one_point n) s.scores.trend
    pub risk : Between n (zero_point n) (one_point n) s.scores.risk
    pub sentiment : Moderate s.scores.sentiment
    pub confidence : Between n (zero_point n) (one_point n) s.scores.confidence
    pub health : s.market_health_index ≤ 100

  -- The sentiment of a configured asset that has features, as it is rounded, is out of [-1, 1].
  abbrev pub Immoderate : Option (Dict V) → Dict (AssetFeatures V) → String × AssetConfig → Type 0
  Immoderate sentiment features e =
      (f : AssetFeatures V) × (x : V) × (lookup e.0 features ≡ some f)
      × (sentiment_for sentiment e.0 ≡ some x)
      × (within n (minus_one n) (one_point n) (n.round4 x) ≡ false)

  within-Between : (low high x : V) → within n low high x ≡ true → Between n low high x
  within-Between low high x h = (ground (arith, h), ground (arith, h))

  Between-within : (low high x : V) → Between n low high x → within n low high x ≡ true
  Between-within low high x b = rw (b.0, b.1) refl

  module _ (o : IsOrdered n) where
    health_bound : (w : Dict V) (t r : V) (s a : Option V) → market_health_index n w t r s a ≤ 100
    unfolding market_health_index
    health_bound w t r s a =
        elim (Bool-cases
          (n.is_eq (sum n (weights_of n (health_pairs n w t r s a))) (zero_point n))) [
            | inl e ↦ rw e (omega arith)
            | inr e ↦ rw e (
                o.round_whole_bound _
                  (clamped-Between n
                    (n.over (sum n (products n (health_pairs n w t r s a)))
                      (sum n (weights_of n (health_pairs n w t r s a))))
                    (zero_point n) (one_point n) o o.below_one).1)
          ]

    module _ (w : Dict V) (sentiment : Option (Dict V)) (p : Option V) where
      score_asset-cases :
          (symbol : String) (cfg : AssetConfig) (f : AssetFeatures V)
          → ((s : ScoredAsset V) × (score_asset n w sentiment p symbol cfg f ≡ returned s)
              × IsInRange s)
            ⊎ ((score_asset n w sentiment p symbol cfg f ≡ raised "ValidationError")
                × ((x : V) × (sentiment_for sentiment symbol ≡ some x)
                    × (within n (minus_one n) (one_point n) (n.round4 x) ≡ false)))
      unfolding score_asset scored_of trend_score risk_score system_confidence
      score_asset-cases symbol cfg f = moderated (sentiment_for sentiment symbol) refl
        where
          t :
              Between n
                (minus_one n)
                (one_point n)
                (scored_of n w sentiment p symbol cfg f).scores.trend
          t = round4-signed n _ o (clamped-Between n _ _ _ o o.above_minus_one)

          r :
              Between n
                (zero_point n)
                (one_point n)
                (scored_of n w sentiment p symbol cfg f).scores.risk
          r = round4-unit n _ o (clamped-Between n _ _ _ o o.below_one)

          c :
              Between n
                (zero_point n)
                (one_point n)
                (scored_of n w sentiment p symbol cfg f).scores.confidence
          c = round4-unit n _ o (clamped-Between n _ _ _ o o.below_one)

          moderated :
              (s : Option V)
              → sentiment_for sentiment symbol ≡ s
              → ((s : ScoredAsset V) × (score_asset n w sentiment p symbol cfg f ≡ returned s)
                  × IsInRange s)
                ⊎ ((score_asset n w sentiment p symbol cfg f ≡ raised "ValidationError")
                    × ((x : V) × (sentiment_for sentiment symbol ≡ some x)
                        × (within n (minus_one n) (one_point n) (n.round4 x) ≡ false)))
          moderated none e = inl (
            scored_of n w sentiment p symbol cfg f,
            rw (t.0, t.1, r.0, r.1, c.0, c.1, e) refl,
            record {
              trend = t;
              risk = r;
              sentiment = rw e tt;
              confidence = c;
              health = health_bound w _ _ _ _;
            },
          )
          moderated (some x) e =
              elim (Bool-cases (within n (minus_one n) (one_point n) (n.round4 x))) [
                | inl h ↦ inl (
                  scored_of n w sentiment p symbol cfg f,
                  rw (t.0, t.1, r.0, r.1, c.0, c.1, e, h) refl,
                  record {
                    trend = t;
                    risk = r;
                    sentiment = rw e (within-Between _ _ _ h);
                    confidence = c;
                    health = health_bound w _ _ _ _;
                  },
                )
                | inr h ↦ inr (rw (t.0, t.1, r.0, r.1, e, h) refl, (x, e, h))
              ]

      score_all-cases :
          (assets : Dict AssetConfig) (features : Dict (AssetFeatures V))
          → ((ss : Dict (ScoredAsset V)) × (score_all n w sentiment p assets features ≡ returned ss)
              × All (λ (e : String × ScoredAsset V). IsInRange e.1) ss)
            ⊎ ((score_all n w sentiment p assets features ≡ raised "ValidationError")
                × Some (Immoderate sentiment features) assets)
      unfolding score_all
      score_all-cases [] features = inl ([], refl, tt)
      score_all-cases ((symbol, cfg) ∷ assets) features =
          elim (Option-cases (lookup symbol features)) [
            | inl e ↦ elim (score_all-cases assets features) [
              | inl (ss, h, a) ↦ inl (ss, rw e h, a)
              | inr (h, s) ↦ inr (rw e h, inr s)
            ]
            | inr (f, e) ↦ elim (score_asset-cases symbol cfg f) [
              | inr (h, (x, given, out)) ↦ inr (rw (e, h) refl, inl (f, x, e, given, out))
              | inl (s, h, r) ↦ elim (score_all-cases assets features) [
                | inl (ss, k, a) ↦ inl ((symbol, s) ∷ ss, rw (e, h, k) refl, (r, a))
                | inr (k, some_out) ↦ inr (rw (e, h, k) refl, inr some_out)
              ]
            ]
          ]

    -- Over floats whose order is total, and kept by rounding, the scoring returns, and then every
    -- trend and sentiment lies in [-1, 1], every risk and confidence in [0, 1], every health index at
    -- most at 100 and the confidence of the regime in [0, 1]; or it raises a ValidationError, and then
    -- the sentiment of a configured asset, rounded, is out of [-1, 1].
    pub score-IsInRange :
        (w : Dict V) (assets : Dict AssetConfig) (features : FeatureSet V)
        (previous : Option RegimeState) (sentiment : Option (Dict V))
        → ((r : ScoringResult V) × (score n w assets features previous sentiment ≡ returned r)
            × All (λ (e : String × ScoredAsset V). IsInRange e.1) r.per_asset
            × Between n (zero_point n) (one_point n) r.regime.confidence)
          ⊎ ((score n w assets features previous sentiment ≡ raised "ValidationError")
              × Some (Immoderate sentiment features.per_asset) assets)
    unfolding score classify
    score-IsInRange w assets features previous sentiment =
        let p = nearest_event_proximity n features.event_features in
        let c = round4-unit n _ o (clamped-Between n _ _ _ o o.below_one) in
        elim (score_all-cases w sentiment p assets features.per_asset) [
          | inl (ss, h, a) ↦
              let r : ScoringResult V = record {
                per_asset = ss;
                regime =
                    classify n (inputs_of n w sentiment p assets features.per_asset)
                      features.event_features previous;
              } in
              inl (r, rw (h, c.0, c.1) refl, a, c)
          | inr (h, s) ↦ inr (rw h refl, s)
        ]
