-- ===== src/Run.antt =====
-- src/market_state_engine/pipeline/orchestrator.py with its own engines: the feature engine and the
-- weigher of news are those of Market/Features and News/Weigher, on what has been ingested.
pub mod Completes
mod Samples
use tread_agent.Base.{String, Option, List, map}
use tread_agent.Base.Dict.{Dict}
use tread_agent.Pipeline.Store.{MacroEvent, Ended}
use tread_agent.Rules.Matcher.{Floats}
use tread_agent.Rules.Activations.{Arithmetic}
use tread_agent.Market.Numbers.{Numbers}
use tread_agent.Market.Models.{PriceSnapshot, RunContext}
use tread_agent.Market.Features.{Series, Globals, compute}
use tread_agent.Market.Orchestrator.{Engines, Settings, PipelineResult, run_stages}
use tread_agent.Market.Answers.{keys_of}
use tread_agent.Market.Messages.{SentimentResponse, SynthesisAsset, ReasoningRequest}
use tread_agent.News.Relevance.{NewsItem}
use tread_agent.News.Weigher.{SourceQuality, HalfLives, weigh}

-- IngestBundle: a price snapshot is given twice, as the series that the features read and as what the
-- document shows of it.
pub record IngestBundle (V Stamp : Type 0) : Type 0 where
  pub series : Dict (Series V)
  pub price_snapshots : Dict (PriceSnapshot V Stamp)
  pub globals : Globals V
  pub events : List (MacroEvent V)
  pub news_items : List (NewsItem V)

-- What the engines read from outside: times, `0.5 ** x` and html.unescape.
pub record Reading (V Stamp : Type 0) : Type 0 where
  pub hours_since : String → Stamp → Ended V
  pub age_of : String → Stamp → Option V
  pub half_power : V → V
  pub unescape : String → String

-- `MarketReasoner`
pub record MarketReasoner (V E : Type 0) : Type 0 where
  pub analyze_sentiment : ReasoningRequest V → E → Option (SentimentResponse V) × E
  pub synthesize : ReasoningRequest V → E → Option (Dict SynthesisAsset) × E

module _ {V Stamp E : Type 0} (n : Numbers V) (reading : Reading V Stamp)
    (quality : SourceQuality V) (half_lives : HalfLives V) (reasoner : MarketReasoner V E)
    (settings : Settings V) where
  -- `PipelineOrchestrator.__init__`, and the calls of the two engines by `run`
  unfoldable pub own_engines : Engines V Stamp (IngestBundle V Stamp) E
  unfolding compute weigh
  own_engines = record {
    compute = λ ingest ctx.
        compute n reading.hours_since settings.assets ingest.series ingest.globals ingest.events
          ctx;
    weigh = λ ingest ctx.
        weigh n reading.half_power reading.unescape reading.age_of quality half_lives ctx.now
          ctx.run_id ingest.news_items (keys_of settings.assets);
    analyze_sentiment = reasoner.analyze_sentiment;
    synthesize = reasoner.synthesize;
    price_snapshots = λ ingest. ingest.price_snapshots;
  }

  -- `PipelineOrchestrator.run`
  unfoldable pub run :
      Floats V
      → Arithmetic V
      → Stamp
      → RunContext Stamp
      → IngestBundle V Stamp
      → E
      → Ended (PipelineResult V Stamp) × E
  unfolding run_stages own_engines
  run floats arithmetic epoch ctx ingest e =
      run_stages n floats arithmetic epoch own_engines settings ctx ingest e
