-- ===== src/Market/Orchestrator/Published.antt =====
-- How a run of src/market_state_engine/pipeline/orchestrator.py ends, with the assembly of
-- assembly/deterministic_state.py, the rules and the guardrails in it.
use tread_agent.Base.{
  inl, inr, is_nonempty, ◌≡◌, refl, ◌∙◌, String, Bool, true, false, not, ◌||◌, ◌&&◌, Option, none,
  some, List, [], ◌∷◌, All-each, is_some,
}
use tread_agent.Base.Dict.{Dict}
use tread_agent.Pipeline.Store.{Ended, returned, raised}
use tread_agent.Rules.Models.{RegimeState, RuleGateError, Checked, valid, gate_error}
use tread_agent.Rules.Matcher.{Floats}
use tread_agent.Rules.Conflict.{ConflictFlag}
use tread_agent.Rules.Engine.{match_rules}
use tread_agent.Rules.Activations.{Activation, Arithmetic}
use tread_agent.Rules.Engine.Sources.{match_rules-Backed}
use tread_agent.Market.Numbers.{Numbers, not_finite}
use tread_agent.Market.Models.{MarketStateRun, FeatureSet, PriceSnapshot, RunContext}
use tread_agent.Market.Scoring.{ScoringResult}
use tread_agent.Market.Guardrails.{has_code}
use tread_agent.Market.Guardrails.Publish.{Honest, Resolved, validate_publishes}
use tread_agent.Market.Assembly.{with_findings, fear_greed_of}
use tread_agent.Market.Assembly.Honest.{
  Unscoped, IsBase, Scored, Ends, gives, refuses, score-Ends, validate-Unscoped, assemble-Ends,
}
use tread_agent.Market.Orchestrator.{
  Engines, Settings, PipelineResult, compose, ask_sentiment, ask_synthesis, finish_run,
  synthesize_run, after_assembly, after_rules, after_score, after_sentiment, after_digest,
  after_weigh, after_compute, run_stages,
}
use tread_agent.Market.Answers.{sentiment_map, conflict_flags, digest_assets}
use tread_agent.Market.Messages.{SynthesisAsset, SentimentResponse, NewsDigest}
use tread_agent.Market.Orchestrator.Composed.{
  compose-codes, compose-failed, compose_assets-Honest, compose_assets-SelfResolved,
  SelfResolved-Resolved,
}

-- The flags of a published run tell which jobs have failed; their outputs are absent, and the links
-- of its assets resolve.
pub record IsPublished {V Stamp : Type 0} (r : PipelineResult V Stamp) : Type 0 where
  pub publish : r.published ≡ true
  pub degraded : r.is_degraded ≡ (
      has_code "sentiment_degraded" r.run.guardrail_flags
      || has_code "synthesis_degraded" r.run.guardrail_flags)
  pub honest :
      Honest
        (has_code "sentiment_degraded" r.run.guardrail_flags)
        (has_code "synthesis_degraded" r.run.guardrail_flags)
        r.run.assets
  pub resolved : Resolved r.run.assets r.run.assets

rule_conflicts-Unscoped : (findings : List ConflictFlag) → Unscoped (conflict_flags findings)
unfolding has_code
rule_conflicts-Unscoped [] = (refl, refl)
rule_conflicts-Unscoped (f ∷ findings) = rule_conflicts-Unscoped findings

module _ {V Stamp Ingest E : Type 0} (n : Numbers V) (floats : Floats V) (arithmetic : Arithmetic V)
    (epoch : Stamp) (engines : Engines V Stamp Ingest E) (settings : Settings V) where
  -- A run ends by a document that is published, or by an exception of the feature engine, of the
  -- weigher or of the gate of the rules; or by a ValidationError or what int() raises for the value of
  -- fear and greed, once there are features.
  pub data RunEnds (ctx : RunContext Stamp) (ingest : Ingest)
      : Ended (PipelineResult V Stamp) → Type 0 where
    published : (r : PipelineResult V Stamp) → IsPublished r → RunEnds ctx ingest (returned r)
    compute_raised :
        (x : String) → engines.compute ingest ctx ≡ raised x → RunEnds ctx ingest (raised x)
    weigh_raised :
        (x : String) → engines.weigh ingest ctx ≡ raised x → RunEnds ctx ingest (raised x)
    gate_raised :
        (x : RuleGateError) (features : FeatureSet V) (state : RegimeState)
        → engines.compute ingest ctx ≡ returned features
        → match_rules floats arithmetic settings.default_half_life settings.rules
            features.event_features
            (some state)
          ≡ gate_error x
        → RunEnds ctx ingest (raised "RuleGateError")
    out_of_range :
        (features : FeatureSet V)
        → engines.compute ingest ctx ≡ returned features
        → RunEnds ctx ingest (raised "ValidationError")
    not_a_number :
        (x : String) (features : FeatureSet V)
        → engines.compute ingest ctx ≡ returned features
        → fear_greed_of n epoch features ≡ not_finite x
        → RunEnds ctx ingest (raised x)

  finish-IsPublished :
      (base : MarketStateRun V Stamp) (sentiment : Option (Dict V))
      (synthesis : Option (Dict SynthesisAsset)) (f g : Bool)
      → (f ≡ true → sentiment ≡ none)
      → (g ≡ true → synthesis ≡ none)
      → IsBase base
      → IsPublished (
          finish_run n floats arithmetic epoch engines settings
            (compose base sentiment synthesis f g))
  unfolding finish_run with_findings compose
  finish-IsPublished base sentiment synthesis f g hf hg b =
      let run : MarketStateRun V Stamp = compose base sentiment synthesis f g in
      let (p, q) = compose-failed base sentiment synthesis f g b.unscoped in
      let (v, w) = validate-Unscoped n run in
      let (c, d) = compose-codes base sentiment synthesis f g b.unscoped in
      let h : Honest f g run.assets =
        compose_assets-Honest sentiment synthesis f g base.assets hf hg b.bare in
      let r : Resolved run.assets run.assets =
        SelfResolved-Resolved run.assets run.assets
          (compose_assets-SelfResolved sentiment synthesis base.assets b.links) (λ P s. s) in
      record {
        publish = (validate_publishes n run).1 (rw (p, q) h, r);
        degraded = rw (v ∙ c, w ∙ d) refl;
        honest = rw (v ∙ c, w ∙ d) h;
        resolved = r;
      }

  after_assembly-Ends :
      (ctx : RunContext Stamp) (ingest : Ingest) (sentiment : Option (SentimentResponse V))
      (f : Bool) (features : FeatureSet V) (o : Ended (MarketStateRun V Stamp)) (e : E)
      → (f ≡ true → sentiment_map sentiment ≡ none)
      → engines.compute ingest ctx ≡ returned features
      → Ends (λ (base : MarketStateRun V Stamp). IsBase base) o
      → RunEnds ctx ingest
          (after_assembly n floats arithmetic epoch engines settings ctx sentiment f o e).0
  unfolding synthesize_run
  after_assembly-Ends ctx ingest sentiment f features (raised _) e hf computed refuses =
      out_of_range features computed
  after_assembly-Ends ctx ingest sentiment f features (returned base') e hf computed (gives _ b) =
      let synthesis =
        (ask_synthesis n floats arithmetic epoch engines settings ctx base' sentiment e).0 in
      published _ (
        finish-IsPublished base' (sentiment_map sentiment) synthesis f (not (is_some synthesis)) hf
          (missing synthesis) b)
    where
      missing : {A : Type 0} (o : Option A) → not (is_some o) ≡ true → o ≡ none
      missing none h = refl
      missing (some a) h = absurd cc

  module _ (ctx : RunContext Stamp) (ingest : Ingest) (features : FeatureSet V)
      (computed : engines.compute ingest ctx ≡ returned features) where
    after_rules-Ends :
        (prices : Dict (PriceSnapshot V Stamp)) (scoring : ScoringResult V)
        (sentiment : Option (SentimentResponse V)) (f : Bool) (e : E)
        (o : Checked (Option (Dict (List (Activation V)) × List ConflictFlag)))
        → (f ≡ true → sentiment_map sentiment ≡ none)
        → Scored features.per_asset scoring.per_asset
        → match_rules floats arithmetic settings.default_half_life settings.rules
            features.event_features
            (some scoring.regime.state)
          ≡ o
        → RunEnds ctx ingest
            (after_rules n floats arithmetic epoch engines settings ctx prices features scoring
              sentiment f o e).0
    unfolding after_rules
    after_rules-Ends prices scoring sentiment f e (gate_error x) hf s m =
        gate_raised x features scoring.regime.state computed m
    after_rules-Ends prices scoring sentiment f e (valid none) hf s m =
        let (acts, flags, same, _) =
          match_rules-Backed floats arithmetic (λ _. Unit) settings.default_half_life settings.rules
            features.event_features (some scoring.regime.state) none
            (All-each (λ _. Unit) (λ _. tt) settings.rules) m in
        absurd cc
    after_rules-Ends prices scoring sentiment f e (valid (some (acts, findings))) hf s m =
        elim (assemble-Ends n epoch acts prices settings.rulebook_version settings.mhi_version
          settings.assets ctx features scoring (conflict_flags findings)
          (rule_conflicts-Unscoped findings) s) [
            | inl b ↦ after_assembly-Ends ctx ingest sentiment f features _ e hf computed b
            | inr (x, bad, ran) ↦ rw ran (not_a_number x features computed bad)
          ]

    after_score-Ends :
        (prices : Dict (PriceSnapshot V Stamp)) (sentiment : Option (SentimentResponse V))
        (f : Bool) (o : Ended (ScoringResult V)) (e : E)
        → (f ≡ true → sentiment_map sentiment ≡ none)
        → Ends (λ (r : ScoringResult V). Scored features.per_asset r.per_asset) o
        → RunEnds ctx ingest
            (after_score n floats arithmetic epoch engines settings ctx prices features sentiment f
              o e).0
    unfolding after_score
    after_score-Ends prices sentiment f (raised _) e hf refuses = out_of_range features computed
    after_score-Ends prices sentiment f (returned scoring) e hf (gives _ s) =
        after_rules-Ends prices scoring sentiment f e _ hf s refl

    after_digest-Ends :
        (prices : Dict (PriceSnapshot V Stamp)) (digest : NewsDigest V) (e : E)
        → RunEnds ctx ingest
            (after_digest n floats arithmetic epoch engines settings ctx prices features digest e).0
    unfolding after_digest after_sentiment
    after_digest-Ends prices digest e =
        let asked =
          ask_sentiment n floats arithmetic epoch engines settings ctx digest (digest_assets digest)
            e in
        after_score-Ends prices asked.0 _ _ asked.1
          (failed (is_nonempty (digest_assets digest)) asked.0)
          (score-Ends n settings.mhi_weights settings.assets features ctx.previous_state
            (sentiment_map asked.0))
      where
        failed :
            (b : Bool) (o : Option (SentimentResponse V))
            → (b && not (is_some o)) ≡ true
            → sentiment_map o ≡ none
        failed b none h = refl
        failed true (some r) h = absurd cc
        failed false (some r) h = absurd cc

    after_weigh-Ends :
        (prices : Dict (PriceSnapshot V Stamp)) (d : Ended (NewsDigest V)) (e : E)
        → engines.weigh ingest ctx ≡ d
        → RunEnds ctx ingest
            (after_weigh n floats arithmetic epoch engines settings ctx prices features d e).0
    after_weigh-Ends prices (raised x) e h = weigh_raised x h
    after_weigh-Ends prices (returned digest) e h = after_digest-Ends prices digest e

  after_compute-Ends :
      (ctx : RunContext Stamp) (ingest : Ingest) (c : Ended (FeatureSet V)) (e : E)
      → engines.compute ingest ctx ≡ c
      → RunEnds ctx ingest
          (after_compute n floats arithmetic epoch engines settings ctx ingest c e).0
  after_compute-Ends ctx ingest (raised x) e h = compute_raised x h
  after_compute-Ends ctx ingest (returned features) e h =
      after_weigh-Ends ctx ingest features h (engines.price_snapshots ingest)
        (engines.weigh ingest ctx) e refl

  -- Whatever the language models answer, a run ends by a document that may be published, or by an
  -- exception: of the feature engine, of the weigher of news or of the gate of the rules, a
  -- ValidationError, or what int() raises for a value of fear and greed that is not finite. In the
  -- document is_degraded says whether the flags name a failed job, the outputs of a job that they
  -- name are absent from every asset, and the rule of every causal link is activated.
  pub run_stages-RunEnds :
      (ctx : RunContext Stamp) (ingest : Ingest) (e : E)
      → RunEnds ctx ingest (run_stages n floats arithmetic epoch engines settings ctx ingest e).0
  unfolding run_stages
  run_stages-RunEnds ctx ingest e =
      after_compute-Ends ctx ingest (engines.compute ingest ctx) e refl
