-- ===== src/Market/Messages.antt =====
-- The digest of news, and what the language models are asked and answer: core/dtos.py and
-- reasoning/models.py of src/market_state_engine.
use tread_agent.Base.{ℕ, String, Option, List}
use tread_agent.Base.Dict.{Dict}
use tread_agent.Market.Models.{Regime, Scores}

-- core/dtos.py: the digest of the news.
pub record AssetNewsWeight (V : Type 0) : Type 0 where
  pub relevance : V
  pub effective_weight : V

pub record WeightedNewsItem (V : Type 0) : Type 0 where
  pub news_id : String
  pub title : String
  pub evidence_text : String
  pub source : String
  pub published_at : String
  pub source_quality : V
  pub recency_decay : V
  pub asset_weights : Dict (AssetNewsWeight V)
  pub max_effective_weight : V

pub record NewsDigest (V : Type 0) : Type 0 where
  pub run_id : String
  pub items : List (WeightedNewsItem V)
  pub weighting_versions : List (String × String)

-- reasoning/models.py; a `DegradedMarker` is none.
pub record SentimentResponse (V : Type 0) : Type 0 where
  pub per_asset_sentiment : Dict V
  pub global_sentiment : V

pub record SynthesisAsset : Type 0 where
  pub human_summary_fa : String
  pub novelty_flags : List String

pub record StateVector (V : Type 0) : Type 0 where
  pub run_id : String
  pub regime : Regime V
  pub per_asset : Dict (Scores V × ℕ)

pub data ReasoningRequest (V : Type 0) : Type 0 where
  sentiment_request :
      (run_id : String)
      → (assets : List String) → NewsDigest V
      → (output_schema_ref : String) → (max_tokens : ℕ) → ReasoningRequest V
  synthesis_request :
      (run_id : String)
      → StateVector V
      → Option (SentimentResponse V)
      → (output_schema_ref : String) → (max_tokens : ℕ) → ReasoningRequest V
