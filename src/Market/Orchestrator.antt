-- ===== src/Market/Orchestrator.antt =====
-- src/market_state_engine/pipeline/orchestrator.py: the stages of a run. The feature engine, the
-- weigher of news and the language models are parameters; the models act on a state `E` of the world.
pub mod Composed
pub mod Published
pub mod Unmoved
use tread_agent.Base.{
  is_nonempty, ℕ, String, Bool, true, false, not, ◌&&◌, ◌||◌, Option, none, some, List, [], ◌∷◌,
  ◌++◌, map, select, any, is_some, str_eq, if◌then◌else◌,
}
use tread_agent.Base.Dict.{Dict, lookup, insert}
use tread_agent.Base.Sort.{sort}
use tread_agent.Base.Order.{str_le}
use tread_agent.Pipeline.Store.{Ended, returned, raised}
use tread_agent.Rules.Models.{RegimeState, Rule, Checked, valid, gate_error}
use tread_agent.Rules.Matcher.{Floats}
use tread_agent.Rules.Conflict.{ConflictFlag}
use tread_agent.Rules.Engine.{match_rules}
use tread_agent.Rules.Activations.{EventFeature, Activation, Arithmetic}
use tread_agent.Market.Numbers.{Numbers}
use tread_agent.Market.Models.{
  warning, Regime, Scores, Asset, GuardrailFlag, MarketStateRun, FeatureSet, PriceSnapshot,
  AssetConfig, RunContext,
}
use tread_agent.Market.Scoring.{ScoringResult, score}
use tread_agent.Market.Guardrails.{GuardrailResult, validate}
use tread_agent.Market.Assembly.{with_findings, assemble}
use tread_agent.Market.Fields.{degraded_run}
use tread_agent.Market.Messages.{
  AssetNewsWeight, WeightedNewsItem, NewsDigest, SentimentResponse, SynthesisAsset, StateVector,
  ReasoningRequest, sentiment_request, synthesis_request,
}
use tread_agent.Market.Answers.{
  distinct, keys_of, assets_in, digest_assets, warning_flag, flag_if, filtered, filtered_answer,
  sentiment_map, conflict_flags, dict_at,
}

-- The engines that are parameters here, and `MarketReasoner`.
pub record Engines (V Stamp Ingest E : Type 0) : Type 0 where
  pub compute : Ingest → RunContext Stamp → Ended (FeatureSet V)
  pub weigh : Ingest → RunContext Stamp → Ended (NewsDigest V)
  pub analyze_sentiment : ReasoningRequest V → E → Option (SentimentResponse V) × E
  pub synthesize : ReasoningRequest V → E → Option (Dict SynthesisAsset) × E
  pub price_snapshots : Ingest → Dict (PriceSnapshot V Stamp)

pub record Settings (V : Type 0) : Type 0 where
  pub assets : Dict AssetConfig
  pub mhi_weights : Dict V
  pub mhi_version : String
  pub rules : List (Rule V)
  pub default_half_life : V
  pub rulebook_version : String

pub record PipelineResult (V Stamp : Type 0) : Type 0 where
  pub run : MarketStateRun V Stamp
  pub is_degraded : Bool
  pub published : Bool

module _ {V Stamp : Type 0} where
  -- `_state_vector`
  unfoldable pub vector_assets : Dict (Scores V × ℕ) → List (Asset V Stamp) → Dict (Scores V × ℕ)
  unfolding insert
  vector_assets d [] = d
  vector_assets d (a ∷ as') =
      vector_assets (insert a.symbol (a.scores, a.market_health_index) d) as'

  unfoldable pub state_vector : MarketStateRun V Stamp → StateVector V
  unfolding vector_assets
  state_vector run = record {
    run_id = run.run_id;
    regime = run.regime;
    per_asset = vector_assets [] run.assets;
  }

  abbrev pub with_sentiment : Option V → Asset V Stamp → Asset V Stamp
  with_sentiment none a = a
  with_sentiment (some s) a = record a { scores = record (a.scores) { sentiment = some s } }

  abbrev pub with_synthesis : Option SynthesisAsset → Asset V Stamp → Asset V Stamp
  with_synthesis none a = a
  with_synthesis (some y) a = record a {
    human_summary_fa = some y.human_summary_fa;
    novelty_flags = some y.novelty_flags;
  }

  unfoldable pub compose_assets :
      Option (Dict V) → Option (Dict SynthesisAsset) → List (Asset V Stamp) → List (Asset V Stamp)
  unfolding lookup
  compose_assets sentiment synthesis [] = []
  compose_assets sentiment synthesis (a ∷ as') =
      with_synthesis (dict_at synthesis a.symbol) (with_sentiment (dict_at sentiment a.symbol) a)
      ∷ compose_assets sentiment synthesis as'

  -- `_compose`
  unfoldable pub compose :
      MarketStateRun V Stamp
      → Option (Dict V)
      → Option (Dict SynthesisAsset)
      → (sentiment_failed synthesis_failed : Bool) → MarketStateRun V Stamp
  unfolding compose_assets
  compose base sentiment synthesis sentiment_failed synthesis_failed = record base {
    assets = compose_assets sentiment synthesis base.assets;
    is_degraded = sentiment_failed || synthesis_failed;
    guardrail_flags =
        select (λ (f : GuardrailFlag). not (str_eq f.code "degraded_run")) base.guardrail_flags
        ++ flag_if (sentiment_failed || synthesis_failed) "degraded_run"
        ++ flag_if sentiment_failed "sentiment_degraded"
        ++ flag_if synthesis_failed "synthesis_degraded";
  }

module _ {V Stamp Ingest E : Type 0} (n : Numbers V) (floats : Floats V) (arithmetic : Arithmetic V)
    (epoch : Stamp) (engines : Engines V Stamp Ingest E) (settings : Settings V) where
  -- `_sentiment`
  abbrev pub ask_sentiment :
      RunContext Stamp → NewsDigest V → List String → E → Option (SentimentResponse V) × E
  ask_sentiment ctx digest [] e = (none, e)
  ask_sentiment ctx digest (a ∷ as') e =
      let (answer, e') =
        engines.analyze_sentiment
          (sentiment_request ctx.run_id (a ∷ as') digest
            "reasoning_response.v1.json#/$defs/SentimentResponse" 512)
          e in
      (filtered_answer (a ∷ as') answer, e')

  -- `_synthesis`
  unfoldable pub ask_synthesis :
      RunContext Stamp
      → MarketStateRun V Stamp
      → Option (SentimentResponse V)
      → E
      → Option (Dict SynthesisAsset) × E
  unfolding state_vector
  ask_synthesis ctx base sentiment e =
      engines.synthesize
        (synthesis_request ctx.run_id (state_vector base) sentiment
          "reasoning_response.v1.json#/$defs/SynthesisResponse" 1024)
        e

  -- The guardrails on the composed run, and the result.
  unfoldable pub finish_run : MarketStateRun V Stamp → PipelineResult V Stamp
  unfolding validate with_findings
  finish_run run = record {
    run = with_findings n epoch run;
    is_degraded = run.is_degraded;
    published = (validate n run).publish;
  }

  -- The synthesis, on the base run.
  unfoldable pub synthesize_run :
      RunContext Stamp
      → Option (SentimentResponse V)
      → (sentiment_failed : Bool) → MarketStateRun V Stamp
      → E
      → PipelineResult V Stamp × E
  unfolding ask_synthesis compose finish_run
  synthesize_run ctx sentiment sentiment_failed base e =
      let (synthesis, e') = ask_synthesis ctx base sentiment e in
      (
        finish_run (
            compose base (sentiment_map sentiment) synthesis sentiment_failed
              (not (is_some synthesis))),
        e',
      )

  -- The assembly, or its exception.
  abbrev pub after_assembly :
      RunContext Stamp
      → Option (SentimentResponse V)
      → Bool
      → Ended (MarketStateRun V Stamp)
      → E
      → Ended (PipelineResult V Stamp) × E
  after_assembly ctx sentiment sentiment_failed (raised x) e = (raised x, e)
  after_assembly ctx sentiment sentiment_failed (returned base) e =
      let (result, e') = synthesize_run ctx sentiment sentiment_failed base e in
      (returned result, e')

  -- The assembly of what the rules have matched, or their exceptions.
  unfoldable pub after_rules :
      RunContext Stamp
      → Dict (PriceSnapshot V Stamp)
      → FeatureSet V
      → ScoringResult V
      → Option (SentimentResponse V)
      → Bool
      → Checked (Option (Dict (List (Activation V)) × List ConflictFlag))
      → E
      → Ended (PipelineResult V Stamp) × E
  unfolding assemble synthesize_run
  after_rules ctx prices features scoring sentiment failed (gate_error x) e =
      (raised "RuleGateError", e)
  after_rules ctx prices features scoring sentiment failed (valid none) e = (raised "KeyError", e)
  after_rules ctx prices features scoring sentiment failed (valid (some (activations, findings)))
        e =
      after_assembly ctx sentiment failed
        (assemble n epoch settings.rulebook_version settings.mhi_version settings.assets ctx
          features scoring activations (conflict_flags findings) prices)
        e

  -- From the rules on, with the scores or their exception.
  unfoldable pub after_score :
      RunContext Stamp
      → Dict (PriceSnapshot V Stamp)
      → FeatureSet V
      → Option (SentimentResponse V)
      → Bool
      → Ended (ScoringResult V)
      → E
      → Ended (PipelineResult V Stamp) × E
  unfolding match_rules after_rules
  after_score ctx prices features sentiment failed (raised x) e = (raised x, e)
  after_score ctx prices features sentiment failed (returned scoring) e =
      after_rules ctx prices features scoring sentiment failed
        (match_rules floats arithmetic settings.default_half_life settings.rules
          features.event_features (some scoring.regime.state))
        e

  -- From the scores on.
  unfoldable pub after_sentiment :
      RunContext Stamp
      → Dict (PriceSnapshot V Stamp)
      → FeatureSet V
      → Option (SentimentResponse V)
      → Bool
      → E
      → Ended (PipelineResult V Stamp) × E
  unfolding score after_score
  after_sentiment ctx prices features sentiment failed e =
      after_score ctx prices features sentiment failed
        (score n settings.mhi_weights settings.assets features ctx.previous_state
          (sentiment_map sentiment))
        e

  unfoldable pub after_digest :
      RunContext Stamp
      → Dict (PriceSnapshot V Stamp)
      → FeatureSet V
      → NewsDigest V
      → E
      → Ended (PipelineResult V Stamp) × E
  unfolding digest_assets after_sentiment
  after_digest ctx prices features digest e =
      let (sentiment, e') = ask_sentiment ctx digest (digest_assets digest) e in
      after_sentiment ctx prices features sentiment
        (is_nonempty (digest_assets digest) && not (is_some sentiment)) e'

  abbrev pub after_weigh :
      RunContext Stamp
      → Dict (PriceSnapshot V Stamp)
      → FeatureSet V
      → Ended (NewsDigest V)
      → E
      → Ended (PipelineResult V Stamp) × E
  after_weigh ctx prices features (raised x) e = (raised x, e)
  after_weigh ctx prices features (returned digest) e = after_digest ctx prices features digest e

  abbrev pub after_compute :
      RunContext Stamp → Ingest → Ended (FeatureSet V) → E → Ended (PipelineResult V Stamp) × E
  after_compute ctx ingest (raised x) e = (raised x, e)
  after_compute ctx ingest (returned features) e =
      after_weigh ctx (engines.price_snapshots ingest) features (engines.weigh ingest ctx) e

  -- `PipelineOrchestrator.run`
  unfoldable pub run_stages : RunContext Stamp → Ingest → E → Ended (PipelineResult V Stamp) × E
  unfolding after_digest
  run_stages ctx ingest e = after_compute ctx ingest (engines.compute ingest ctx) e
