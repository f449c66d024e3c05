-- ===== src/Run/Completes.antt =====
-- How a run of src/market_state_engine/pipeline/orchestrator.py with its own engines ends.
use tread_agent.Base.{◌≡◌, String, false, reverse, or_else, All, Some, is_some, true}
use tread_agent.Base.Dict.{lookup}
use tread_agent.Pipeline.Store.{MacroEvent, Ended, returned, raised}
use tread_agent.Rules.Engine.Total.{IsExecutable}
use tread_agent.Market.Numbers.{Numbers, not_finite}
use tread_agent.Market.Assembly.{fear_greed_of}
use tread_agent.Market.Models.{FeatureSet, RunContext}
use tread_agent.Market.Features.{Series, compute}
use tread_agent.Market.Orchestrator.{Settings, PipelineResult}
use tread_agent.Market.Orchestrator.Published.{IsPublished}
use tread_agent.News.Weigher.{SourceQuality, HalfLives}
use tread_agent.Run.{IngestBundle, Reading, MarketReasoner}

-- It returns.
abbrev pub Returns : {A : Type 0} → Ended A → Type 0
Returns {A} o = (a : A) × (o ≡ returned a)

module _ {V Stamp E : Type 0} (n : Numbers V) (reading : Reading V Stamp)
    (quality : SourceQuality V) (half_lives : HalfLives V) (reasoner : MarketReasoner V E)
    (settings : Settings V) where
  abbrev pub default_half_life : V
  default_half_life = or_else (lookup "default" half_lives.news_half_life_hours) (n.decimal 120 1)

  -- No close of the series is zero.
  abbrev pub NonzeroCloses : Series V → Type 0
  NonzeroCloses s = All (λ c. n.is_eq c (n.decimal 0 0) ≡ false) (reverse s.closes)

  -- The configuration is sound: the default half life is positive, and the rules can be executed.
  pub record IsSound : Type 0 where
    pub positive : n.is_le default_half_life (n.decimal 0 0) ≡ false
    pub executable : All IsExecutable settings.rules

  -- How a run ends: it completes, a value is out of the range of its field, the time of a recorded event
  -- cannot be read, or the value of fear and greed is not finite.
  pub data Concludes (epoch : Stamp) (ctx : RunContext Stamp) (ingest : IngestBundle V Stamp)
      : Ended (PipelineResult V Stamp) → Type 0 where
    completed :
        (r : PipelineResult V Stamp) → IsPublished r → Concludes epoch ctx ingest (returned r)
    out_of_range : Concludes epoch ctx ingest (raised "ValidationError")
    bad_time :
        (x : String)
        → Some
            (λ (e : MacroEvent V).
              (is_some e.actual ≡ true) × (reading.hours_since e.scheduled_at ctx.now ≡ raised x))
            ingest.events
        → Concludes epoch ctx ingest (raised x)
    bad_value :
        (x : String) (features : FeatureSet V)
        → compute n reading.hours_since settings.assets ingest.series ingest.globals ingest.events
            ctx
          ≡ returned features
        → fear_greed_of n epoch features ≡ not_finite x
        → Concludes epoch ctx ingest (raised x)
