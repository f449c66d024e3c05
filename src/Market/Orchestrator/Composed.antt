-- ===== src/Market/Orchestrator/Composed.antt =====
-- What `_compose` of src/market_state_engine/pipeline/orchestrator.py makes of the base run.
use tread_agent.Base.{
  ◌≡◌, refl, ◌∙◌, String, Bool, true, false, not, ◌||◌, ◌&&◌, Option, none, some, List, [], ◌∷◌,
  ◌++◌, select, any, any-append, Some, All-map, str_eq, arith, inl, inr,
}
use tread_agent.Base.Dict.{Dict}
use tread_agent.Market.Models.{Asset, GuardrailFlag, MarketStateRun}
use tread_agent.Market.Guardrails.{has_code, sentiment_failed, synthesis_failed}
use tread_agent.Market.Guardrails.Publish.{Honest, Resolved}
use tread_agent.Market.Assembly.Honest.{Bare, Links, SelfResolved, Unscoped}
use tread_agent.Market.Orchestrator.{with_sentiment, with_synthesis, compose_assets, compose}
use tread_agent.Market.Answers.{dict_at, flag_if}
use tread_agent.Market.Messages.{SynthesisAsset}

any-four :
    (test : GuardrailFlag → Bool) (a b c d : List GuardrailFlag)
    → any test a ≡ false
    → any test (a ++ b ++ c ++ d) ≡ (any test b || any test c || any test d)
any-four test a b c d h =
    rw (any-append test (a ++ b ++ c) d, any-append test (a ++ b) c, any-append test a b, h) refl

any-select :
    (test keep : GuardrailFlag → Bool) (xs : List GuardrailFlag)
    → any test xs ≡ false
    → any test (select keep xs) ≡ false
any-select test keep [] h = refl
any-select test keep (x ∷ xs) h = ground (arith, any-select test keep xs)

flags_code :
    (code : String) (old : List GuardrailFlag) (f g : Bool)
    → has_code code old ≡ false
    → has_code code (
        select (λ (x : GuardrailFlag). not (str_eq x.code "degraded_run")) old
        ++ flag_if (f || g) "degraded_run"
        ++ flag_if f "sentiment_degraded"
        ++ flag_if g "synthesis_degraded")
      ≡ (has_code code (flag_if (f || g) "degraded_run")
          || has_code code (flag_if f "sentiment_degraded")
          || has_code code (flag_if g "synthesis_degraded"))
unfolding has_code
flags_code code old f g h =
    let is_code : GuardrailFlag → Bool = λ x. str_eq x.code code in
    let keep : GuardrailFlag → Bool = λ x. not (str_eq x.code "degraded_run") in
    any-four is_code (select keep old) (flag_if (f || g) "degraded_run")
      (flag_if f "sentiment_degraded") (flag_if g "synthesis_degraded")
      (any-select is_code keep old h)

failed :
    (f g : Bool) → ((f || (f || g) && not (f || g)) ≡ f) × ((g || (f || g) && not (f || g)) ≡ g)
failed f g = (ground arith, ground arith)

told :
    (f g : Bool)
    → (has_code "sentiment_degraded" (flag_if (f || g) "degraded_run")
          || has_code "sentiment_degraded" (flag_if f "sentiment_degraded")
          || has_code "sentiment_degraded" (flag_if g "synthesis_degraded")
        ≡ f)
      × (has_code "synthesis_degraded" (flag_if (f || g) "degraded_run")
            || has_code "synthesis_degraded" (flag_if f "sentiment_degraded")
            || has_code "synthesis_degraded" (flag_if g "synthesis_degraded")
          ≡ g)
unfolding has_code
told true true = (refl, refl)
told true false = (refl, refl)
told false true = (refl, refl)
told false false = (refl, refl)

module _ {V Stamp : Type 0} where
  -- What the flags of the composed run say.
  pub compose-codes :
      (base : MarketStateRun V Stamp) (sentiment : Option (Dict V))
      (synthesis : Option (Dict SynthesisAsset)) (f g : Bool)
      → Unscoped base.guardrail_flags
      → (has_code "sentiment_degraded" (compose base sentiment synthesis f g).guardrail_flags ≡ f)
        × (has_code "synthesis_degraded" (compose base sentiment synthesis f g).guardrail_flags ≡ g)
  unfolding compose
  compose-codes base sentiment synthesis f g u = (
    flags_code "sentiment_degraded" base.guardrail_flags f g u.0 ∙ (told f g).0,
    flags_code "synthesis_degraded" base.guardrail_flags f g u.1 ∙ (told f g).1,
  )

  -- So the guardrails take the jobs for failed that have failed.
  pub compose-failed :
      (base : MarketStateRun V Stamp) (sentiment : Option (Dict V))
      (synthesis : Option (Dict SynthesisAsset)) (f g : Bool)
      → Unscoped base.guardrail_flags
      → (sentiment_failed (compose base sentiment synthesis f g) ≡ f)
        × (synthesis_failed (compose base sentiment synthesis f g) ≡ g)
  unfolding sentiment_failed synthesis_failed compose
  compose-failed base sentiment synthesis f g u =
      let (p, q) = compose-codes base sentiment synthesis f g u in rw (p, q) (failed f g)

  pub compose_assets-Honest :
      (sentiment : Option (Dict V)) (synthesis : Option (Dict SynthesisAsset)) (f g : Bool)
      (assets : List (Asset V Stamp))
      → (f ≡ true → sentiment ≡ none)
      → (g ≡ true → synthesis ≡ none)
      → Bare assets
      → Honest f g (compose_assets sentiment synthesis assets)
  unfolding compose_assets
  compose_assets-Honest sentiment synthesis f g [] hf hg b = tt
  compose_assets-Honest sentiment synthesis f g (a ∷ assets) hf hg b = (
    (
      λ e. rw (hf e) (sentiment_kept (dict_at synthesis a.symbol) b.0.0),
      λ e. rw (hg e) (summary_kept (dict_at sentiment a.symbol) b.0.1),
    ),
    compose_assets-Honest sentiment synthesis f g assets hf hg b.1,
  )
    where
      sentiment_kept :
          (y : Option SynthesisAsset)
          → a.scores.sentiment ≡ none
          → (with_synthesis y a).scores.sentiment ≡ none
      sentiment_kept none h = h
      sentiment_kept (some y) h = h

      summary_kept :
          (s : Option V) → a.human_summary_fa ≡ none → (with_sentiment s a).human_summary_fa ≡ none
      summary_kept none h = h
      summary_kept (some s) h = h

  pub compose_assets-SelfResolved :
      (sentiment : Option (Dict V)) (synthesis : Option (Dict SynthesisAsset))
      (assets : List (Asset V Stamp))
      → SelfResolved assets
      → SelfResolved (compose_assets sentiment synthesis assets)
  unfolding compose_assets
  compose_assets-SelfResolved sentiment synthesis [] h = tt
  compose_assets-SelfResolved sentiment synthesis (a ∷ assets) h = (
    kept (dict_at synthesis a.symbol) (dict_at sentiment a.symbol),
    compose_assets-SelfResolved sentiment synthesis assets h.1,
  )
    where
      kept :
          (y : Option SynthesisAsset) (s : Option V) → Links (with_synthesis y (with_sentiment s a))
      kept none none = h.0
      kept none (some s) = h.0
      kept (some y) none = h.0
      kept (some y) (some s) = h.0

  pub SelfResolved-Resolved :
      (all assets : List (Asset V Stamp))
      → SelfResolved assets
      → ((P : Asset V Stamp → Type 0) → Some P assets → Some P all)
      → Resolved all assets
  SelfResolved-Resolved all [] h up = tt
  SelfResolved-Resolved all (a ∷ assets) h up = (
    All-map _ _ (λ l s. up _ (inl s)) a.causal_links h.0,
    SelfResolved-Resolved all assets h.1 (λ P s. up P (inr s)),
  )
