-- ===== src/Market/Orchestrator/Unmoved.antt =====
-- What the answer of the synthesis can change of a run of src/market_state_engine/pipeline/orchestrator.py.
use tread_agent.Base.{
  ◌≡◌, refl, ap, String, false, is_nonempty, ◌&&◌, Bool, Option, none, some, List, [], ◌∷◌, map,
  is_some, not,
}
use tread_agent.Base.Dict.{Dict}
use tread_agent.Pipeline.Store.{Ended, returned, raised}
use tread_agent.Rules.Models.{Checked, valid, gate_error}
use tread_agent.Rules.Matcher.{Floats}
use tread_agent.Rules.Conflict.{ConflictFlag}
use tread_agent.Rules.Activations.{Activation, Arithmetic}
use tread_agent.Market.Numbers.{Numbers}
use tread_agent.Market.Models.{Asset, MarketStateRun, FeatureSet, PriceSnapshot, RunContext}
use tread_agent.Market.Scoring.{ScoringResult}
use tread_agent.Market.Assembly.{with_findings}
use tread_agent.Market.Messages.{ReasoningRequest, SynthesisAsset, SentimentResponse, NewsDigest}
use tread_agent.Market.Answers.{sentiment_map, digest_assets, dict_at}
use tread_agent.Market.Orchestrator.{
  Engines, Settings, PipelineResult, with_sentiment, with_synthesis, compose_assets, compose,
  ask_sentiment, ask_synthesis, finish_run, synthesize_run, after_assembly, after_rules,
  after_score, after_sentiment, after_digest, after_weigh, after_compute, run_stages,
}

module _ {V Stamp : Type 0} where
  abbrev textless : Asset V Stamp → Asset V Stamp
  textless a = record a { human_summary_fa = none; novelty_flags = none }

  -- A run without the summaries and novelty flags of its assets, the degradation and the flags.
  abbrev pub without_synthesis : MarketStateRun V Stamp → MarketStateRun V Stamp
  without_synthesis run = record run {
    assets = map textless run.assets;
    is_degraded = false;
    guardrail_flags = [];
  }

  -- Both raise the same, or both return runs that are the same without what the synthesis says.
  pub data Alike : Ended (PipelineResult V Stamp) → Ended (PipelineResult V Stamp) → Type 0 where
    both_raise : (x : String) → Alike (raised x) (raised x)
    both_return :
        (a b : PipelineResult V Stamp)
        → without_synthesis a.run ≡ without_synthesis b.run
        → Alike (returned a) (returned b)

  textless-with :
      (y : Option SynthesisAsset) (a : Asset V Stamp) → textless (with_synthesis y a) ≡ textless a
  textless-with none a = refl
  textless-with (some y) a = refl

  map-textless :
      (sentiment : Option (Dict V)) (y z : Option (Dict SynthesisAsset))
      (assets : List (Asset V Stamp))
      → map textless (compose_assets sentiment y assets)
        ≡ map textless (compose_assets sentiment z assets)
  unfolding compose_assets
  map-textless sentiment y z [] = refl
  map-textless sentiment y z (a ∷ assets) =
      let b = with_sentiment (dict_at sentiment a.symbol) a in
      rw
        (
          textless-with (dict_at y a.symbol) b,
          textless-with (dict_at z a.symbol) b,
          map-textless sentiment y z assets,
        )
        refl

module _ {V Stamp Ingest E : Type 0} (n : Numbers V) (floats : Floats V) (arithmetic : Arithmetic V)
    (epoch : Stamp) (settings : Settings V) (engines : Engines V Stamp Ingest E)
    (other : ReasoningRequest V → E → Option (Dict SynthesisAsset) × E) where
  -- The engines with another synthesis.
  abbrev pub changed : Engines V Stamp Ingest E
  changed = record engines { synthesize = other }

  after_assembly-Alike :
      (ctx : RunContext Stamp) (sentiment : Option (SentimentResponse V)) (f : Bool)
      (o : Ended (MarketStateRun V Stamp)) (e : E)
      → Alike
          (after_assembly n floats arithmetic epoch engines settings ctx sentiment f o e).0
          (after_assembly n floats arithmetic epoch changed settings ctx sentiment f o e).0
  unfolding synthesize_run finish_run with_findings compose
  after_assembly-Alike ctx sentiment f (raised x) e = both_raise x
  after_assembly-Alike ctx sentiment f (returned base) e =
      let y = (ask_synthesis n floats arithmetic epoch engines settings ctx base sentiment e).0 in
      let z = (ask_synthesis n floats arithmetic epoch changed settings ctx base sentiment e).0 in
      both_return _ _ (
        ap (λ as'. record (without_synthesis base) { assets = as' })
          (map-textless (sentiment_map sentiment) y z base.assets))

  module _ (ctx : RunContext Stamp) (prices : Dict (PriceSnapshot V Stamp))
      (features : FeatureSet V) where
    after_rules-Alike :
        (scoring : ScoringResult V) (sentiment : Option (SentimentResponse V)) (f : Bool)
        (o : Checked (Option (Dict (List (Activation V)) × List ConflictFlag))) (e : E)
        → Alike
            (after_rules n floats arithmetic epoch engines settings ctx prices features scoring
              sentiment f o e).0
            (after_rules n floats arithmetic epoch changed settings ctx prices features scoring
              sentiment f o e).0
    unfolding after_rules
    after_rules-Alike scoring sentiment f (gate_error x) e = both_raise _
    after_rules-Alike scoring sentiment f (valid none) e = both_raise _
    after_rules-Alike scoring sentiment f (valid (some (acts, findings))) e =
        after_assembly-Alike ctx sentiment f _ e

    after_score-Alike :
        (sentiment : Option (SentimentResponse V)) (f : Bool) (o : Ended (ScoringResult V)) (e : E)
        → Alike
            (after_score n floats arithmetic epoch engines settings ctx prices features sentiment f
              o e).0
            (after_score n floats arithmetic epoch changed settings ctx prices features sentiment f
              o e).0
    unfolding after_score
    after_score-Alike sentiment f (raised x) e = both_raise x
    after_score-Alike sentiment f (returned scoring) e = after_rules-Alike scoring sentiment f _ e

    after_weigh-Alike :
        (d : Ended (NewsDigest V)) (e : E)
        → Alike
            (after_weigh n floats arithmetic epoch engines settings ctx prices features d e).0
            (after_weigh n floats arithmetic epoch changed settings ctx prices features d e).0
    unfolding after_digest after_sentiment
    after_weigh-Alike (raised x) e = both_raise x
    after_weigh-Alike (returned digest) e = asked_alike (digest_assets digest) e
      where
        asked_alike :
            (as' : List String) (e : E)
            → Alike
                (after_sentiment n floats arithmetic epoch engines settings ctx prices features
                  (ask_sentiment n floats arithmetic epoch engines settings ctx digest as' e).0
                  (is_nonempty (digest_assets digest)
                    && not (
                        is_some
                          (ask_sentiment n floats arithmetic epoch engines settings ctx digest as'
                            e).0))
                  (ask_sentiment n floats arithmetic epoch engines settings ctx digest as' e).1).0
                (after_sentiment n floats arithmetic epoch changed settings ctx prices features
                  (ask_sentiment n floats arithmetic epoch changed settings ctx digest as' e).0
                  (is_nonempty (digest_assets digest)
                    && not (
                        is_some
                          (ask_sentiment n floats arithmetic epoch changed settings ctx digest as'
                            e).0))
                  (ask_sentiment n floats arithmetic epoch changed settings ctx digest as' e).1).0
        asked_alike [] e = after_score-Alike _ _ _ _
        asked_alike (a ∷ as') e = after_score-Alike _ _ _ _

  after_compute-Alike :
      (ctx : RunContext Stamp) (ingest : Ingest) (c : Ended (FeatureSet V)) (e : E)
      → Alike
          (after_compute n floats arithmetic epoch engines settings ctx ingest c e).0
          (after_compute n floats arithmetic epoch changed settings ctx ingest c e).0
  after_compute-Alike ctx ingest (raised x) e = both_raise x
  after_compute-Alike ctx ingest (returned features) e =
      after_weigh-Alike ctx (engines.price_snapshots ingest) features (engines.weigh ingest ctx) e

  -- Whatever the synthesis answers, or whether it fails, a run ends the same way: it raises the same,
  -- or returns a run that is the same apart from the summaries and novelty flags of the assets, the
  -- degradation and the guardrail flags. Scores, health indices, the regime, sentiments, rules and
  -- links are not changed by it.
  pub run_stages-Alike :
      (ctx : RunContext Stamp) (ingest : Ingest) (e : E)
      → Alike
          (run_stages n floats arithmetic epoch engines settings ctx ingest e).0
          (run_stages n floats arithmetic epoch changed settings ctx ingest e).0
  unfolding run_stages
  run_stages-Alike ctx ingest e = after_compute-Alike ctx ingest (engines.compute ingest ctx) e
