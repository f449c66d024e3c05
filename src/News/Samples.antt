-- ===== src/News/Samples.antt =====
-- News on gold, oil and bitcoin.
use tread_agent.Base.{
  ◌≡◌, refl, String, Bool, true, false, Option, none, some, List, [], ◌∷◌, map, All, arith, str_eq,
}
use tread_agent.Pipeline.Store.{Ended, returned, raised}
use tread_agent.Market.Fixed.{ℤ, pos, fixed, fixed-IsOrdered}
use tread_agent.Market.Messages.{WeightedNewsItem, NewsDigest}
use tread_agent.News.Patterns.{mentions}
use tread_agent.News.Direct.{gold_patterns, usd_irr_patterns}
use tread_agent.News.Topics.{us_dollar_patterns, geopolitical_risk_patterns}
use tread_agent.News.Relevance.{
  NewsItem, normalized_assets, evidence_text, relevance_map, without_tags,
}
use tread_agent.News.Relevance.Signals.{InUnit, IsGraded, IsUnrelated, relevance_map-Graded}
use tread_agent.News.Weigher.{select_items, SourceQuality, HalfLives, weigh}
use tread_agent.News.Weigher.Capped.{IsCapped, select_items-IsCapped}

finds_gold : mentions gold_patterns "Spot  GOLD rallies" ≡ true
unfolding mentions
finds_gold = refl

tags_removed : without_tags "<b>Gold</b> <<>up" ≡ " Gold   up"
unfolding without_tags
tags_removed = refl

golden_is_no_gold : mentions gold_patterns "A golden market" ≡ false
unfolding mentions
golden_is_no_gold = refl

finds_rial : mentions usd_irr_patterns "the usd / irr rate" ≡ true
unfolding mentions
finds_rial = refl

finds_high : mentions us_dollar_patterns "Dollar hits a new three-month high" ≡ true
unfolding mentions
finds_high = refl

finds_disruption : mentions geopolitical_risk_patterns "Shipping is disrupted" ≡ true
unfolding mentions
finds_disruption = refl

plain : evidence_text (λ s. s) (some " <p class=x>Gold</p>  up <> \n ") ≡ "Gold up <>"
unfolding evidence_text
plain = refl

normalized : normalized_assets (" gold" ∷ "" ∷ "BTC" ∷ "Gold " ∷ []) ≡ "BTC" ∷ "GOLD" ∷ []
unfolding normalized_assets
normalized = refl

abbrev fed : NewsItem ℤ
fed = record {
  news_id = "n1";
  title = "Fed cuts rates as Bitcoin rises";
  source = "wire";
  published_at = "2026-01-01T00:00:00Z";
  body = none;
  asset_tags = none;
  relevance = none;
}

-- The example in the docstring of compute_relevance_map.
fed_relevance :
    relevance_map fixed
      (λ s. s)
      fed
      ("BTC" ∷ "ETH" ∷ "GOLD" ∷ "WTI" ∷ "USD_IRR" ∷ "TOTAL_MCAP" ∷ [])
    ≡ ("BTC", pos 8000)
      ∷ ("ETH", pos 8000)
      ∷ ("GOLD", pos 9500)
      ∷ ("TOTAL_MCAP", pos 9000)
      ∷ ("USD_IRR", pos 7500)
      ∷ ("WTI", pos 6000)
      ∷ []
unfolding relevance_map
fed_relevance = refl

fixed-IsGraded : IsGraded fixed
fixed-IsGraded = record {
  none_unit = (refl, refl);
  tag_unit = (refl, refl);
  text_unit = (refl, refl);
  zero_irrefl = refl;
}

relevance_map-Graded_example :
    All
      (λ (e : String × ℤ).
        (IsUnrelated fixed fixed-IsOrdered fixed-IsGraded (λ s. s) fed e.0 → e.1 ≡ pos 0)
        × InUnit fixed e.1)
      (relevance_map fixed (λ s. s) fed ("BTC" ∷ "GOLD" ∷ []))
relevance_map-Graded_example =
    relevance_map-Graded fixed fixed-IsOrdered fixed-IsGraded (λ s. s) fed ("BTC" ∷ "GOLD" ∷ [])

abbrev quality : SourceQuality ℤ
quality = record { version = "1"; sources = ("wire", pos 9000) ∷ []; default_quality = pos 5000 }

abbrev half_lives : HalfLives ℤ
half_lives = record {
  version = "1";
  news_half_life_hours = ("default", pos 120000) ∷ [];
  max_news_age_hours = pos 480000;
}

abbrev ids_of : Ended (NewsDigest ℤ) → List String
ids_of (raised x) = x ∷ []
ids_of (returned d) = map (λ (i : WeightedNewsItem ℤ). i.news_id) d.items

-- The age of a text is none for the stale one, and an hour for the others.
abbrev ages : String → String → Option ℤ
ages t now = if_stale (str_eq t "stale")
  where
    if_stale : Bool → Option ℤ
    if_stale true = none
    if_stale false = some (pos 10000)

weighed :
    ids_of (
      weigh fixed
        (λ x. pos 5000)
        (λ s. s)
        ages
        quality
        half_lives
        "now"
        "run-1"
        (record fed { news_id = "n2"; source = "blog" }
          ∷ record fed { news_id = "n3"; published_at = "stale" }
          ∷ record fed { news_id = "n4"; title = "Weather" }
          ∷ fed
          ∷ [])
        ("BTC" ∷ []))
    ≡ "n1" ∷ "n2" ∷ []
unfolding weigh
weighed = refl

abbrev item : String → String → WeightedNewsItem ℤ
item id asset = record {
  news_id = id;
  title = "";
  evidence_text = "";
  source = "";
  published_at = "";
  source_quality = pos 10000;
  recency_decay = pos 10000;
  asset_weights = (asset, record { relevance = pos 10000; effective_weight = pos 10000 }) ∷ [];
  max_effective_weight = pos 10000;
}

-- WTI comes last, and is not starved.
abbrev ranked : List (WeightedNewsItem ℤ)
ranked =
    item "a" "BTC"
    ∷ item "b" "BTC"
    ∷ item "c" "ETH"
    ∷ item "d" "BTC"
    ∷ item "e" "GOLD"
    ∷ item "f" "WTI"
    ∷ []

oil_covered :
    map (λ (i : WeightedNewsItem ℤ). i.news_id) (select_items 4 ranked) ≡ "a" ∷ "c" ∷ "e" ∷ "f" ∷ []
unfolding select_items
oil_covered = refl

select_items-IsCapped_example : IsCapped 4 ranked (select_items 4 ranked)
select_items-IsCapped_example = select_items-IsCapped 4 ranked (omega arith) (
  (refl, (refl, (refl, (refl, (refl, tt))))),
  (
    (refl, (refl, (refl, (refl, tt)))),
    ((refl, (refl, (refl, tt))), ((refl, (refl, tt)), ((refl, tt), (tt, tt)))),
  ),
)
