-- ===== src/Run/Samples.antt =====
-- A run for gold after a high US CPI, with its own features and digest.
use tread_agent.Base.{◌≡◌, refl, String, none, some, List, [], ◌∷◌}
use tread_agent.Pipeline.Store.{us_cpi, scheduled, Ended, returned}
use tread_agent.Rules.Models.{risk_on, bearish, major, Rule}
use tread_agent.Market.Fixed.{ℤ, pos, fixed, fixed_floats, fixed_arithmetic}
use tread_agent.Market.Models.{metal, high, RunContext}
use tread_agent.Market.Orchestrator.{Settings, PipelineResult}
use tread_agent.Market.Messages.{ReasoningRequest, sentiment_request, synthesis_request}
use tread_agent.News.Weigher.{SourceQuality, HalfLives}
use tread_agent.Run.{IngestBundle, Reading, MarketReasoner, run}

abbrev hot_cpi : Rule ℤ
hot_cpi = record {
  id = "cpi-gold";
  version = 2;
  status = "active";
  on_trigger = record {
    event_type = some us_cpi;
    condition = "surprise_us_cpi >= 0.1";
    condition_vars = "surprise_us_cpi" ∷ [];
  };
  effects =
      record {
        asset = "GOLD";
        direction = bearish;
        strength = major;
        horizon = "1d";
        uncertain = none;
      }
      ∷ [];
  regime_guard = some (record { applies_in = risk_on ∷ []; otherwise = "flag_uncertain" });
  half_life_hours = pos 120000;
  economic_rationale = "rates";
  reviewed_by = "senior_trader";
}

abbrev settings : Settings ℤ
settings = record {
  assets = ("GOLD", record { asset_class = metal; regime_sensitivity = high }) ∷ [];
  mhi_weights = ("trend", pos 5000) ∷ ("risk", pos 5000) ∷ [];
  mhi_version = "1";
  rules = hot_cpi ∷ [];
  default_half_life = pos 240000;
  rulebook_version = "1";
}

abbrev ctx : RunContext String
ctx = record {
  run_id = "run-1";
  run_sequence = 1;
  trigger_type = scheduled;
  trigger_detail = none;
  now = "2026-01-01T00:00:00Z";
  previous_state = none;
}

abbrev ingested : IngestBundle ℤ String
ingested = record {
  series =
      (
        "GOLD",
        record {
          closes = pos 20000000 ∷ pos 20400000 ∷ [];
          highs = [];
          lows = [];
          volumes = [];
          horizon_changes = none;
        },
      )
      ∷ [];
  price_snapshots = [];
  globals = record { fear_greed = none; dominance = none; total_mcap = none };
  events =
      record {
        event_id = "cpi-1";
        event_type = us_cpi;
        scheduled_at = "2026-01-01T00:00:00Z";
        consensus = pos 3000;
        actual = some (pos 5000);
      }
      ∷ [];
  news_items =
      record {
        news_id = "n1";
        title = "Gold falls";
        source = "wire";
        published_at = "2026-01-01T00:00:00Z";
        body = none;
        asset_tags = none;
        relevance = none;
      }
      ∷ [];
}

abbrev reading : Reading ℤ String
reading = record {
  hours_since = λ t now. returned (pos 0);
  age_of = λ t now. some (pos 10000);
  half_power = λ x. pos 5000;
  unescape = λ s. s;
}

abbrev quality : SourceQuality ℤ
quality = record { version = "1"; sources = []; default_quality = pos 5000 }

abbrev half_lives : HalfLives ℤ
half_lives = record { version = "1"; news_half_life_hours = []; max_news_age_hours = pos 480000 }

abbrev asked : ReasoningRequest ℤ → List String
asked (sentiment_request id assets digest ref tokens) = assets
asked (synthesis_request id vector sentiment ref tokens) = []

-- Both models fail. The state of the world has the assets of each request, the last one first.
abbrev reasoner : MarketReasoner ℤ (List (List String))
reasoner = record {
  analyze_sentiment = λ r e. (none, asked r ∷ e);
  synthesize = λ r e. (none, asked r ∷ e);
}

abbrev outcome : Ended (PipelineResult ℤ String) × List (List String)
outcome =
    run fixed reading quality half_lives reasoner settings fixed_floats fixed_arithmetic
      "1970-01-01T00:00:00Z" ctx ingested []

-- The weigher's digest is about gold, so the sentiment is asked for it.
asked_for_gold : outcome.1 ≡ [] ∷ ("GOLD" ∷ []) ∷ []
unfolding run
asked_for_gold = refl
