-- ===== src/News/Weigher.antt =====
-- src/market_state_engine/news/weigher.py and features/decay.py: the weights of the news for each
-- asset, and the ranked digest. The reading of times is a parameter.
pub mod Ids
pub mod Capped
use tread_agent.Base.{
  is_empty, ℕ, zero, suc, String, Bool, true, false, not, ◌&&◌, Option, none, some, List, [], ◌∷◌,
  ◌++◌, map, select, take, any, length, leb, is_some, or_else, str_eq, if◌then◌else◌,
}
use tread_agent.Base.Dict.{Dict, lookup}
use tread_agent.Base.Sort.{sort}
use tread_agent.Base.Order.{str_le}
use tread_agent.Pipeline.Store.{Ended, returned, raised}
use tread_agent.Market.Numbers.{Numbers, larger, zero_point, clamped, unit}
use tread_agent.Market.Ranges.{and_then}
use tread_agent.Market.Messages.{AssetNewsWeight, WeightedNewsItem, NewsDigest}
use tread_agent.News.Relevance.{NewsItem, normalized_assets, evidence_text, relevance_map}

-- config/models.SourceQuality and HalfLives
pub record SourceQuality (V : Type 0) : Type 0 where
  pub version : String
  pub sources : Dict V
  pub default_quality : V

pub record HalfLives (V : Type 0) : Type 0 where
  pub version : String
  pub news_half_life_hours : Dict V
  pub max_news_age_hours : V

-- `_PRIMARY_ASSET_COVERAGE`
abbrev pub primary_assets : List String
primary_assets = "BTC" ∷ "ETH" ∷ "GOLD" ∷ "WTI" ∷ []

abbrev pub has_id : List String → String → Bool
has_id ids id = any (str_eq id) ids

-- `ids.add(id)`
abbrev pub add_id : String → List String → List String
add_id id ids = if has_id ids id then ids else id ∷ ids

module _ {V : Type 0} where
  -- `asset in item.asset_weights`
  abbrev pub covers : String → WeightedNewsItem V → Bool
  covers asset i = is_some (lookup asset i.asset_weights)

  -- `next((item for item in ranked if ...), None)`
  unfoldable pub first_covering : String → List (WeightedNewsItem V) → Option (WeightedNewsItem V)
  unfolding lookup
  first_covering asset [] = none
  first_covering asset (i ∷ is) = if covers asset i then some i else first_covering asset is

  abbrev pub add_representative : Option (WeightedNewsItem V) → List String → List String
  add_representative none ids = ids
  add_representative (some i) ids = add_id i.news_id ids

  unfoldable pub cover_assets : List String → List (WeightedNewsItem V) → List String → List String
  unfolding first_covering
  cover_assets [] ranked ids = ids
  cover_assets (a ∷ as') ranked ids =
      cover_assets as' ranked (add_representative (first_covering a ranked) ids)

  -- The loop that fills the selection up.
  unfoldable pub fill_ids : ℕ → List (WeightedNewsItem V) → List String → List String
  fill_ids max_items [] ids = ids
  fill_ids max_items (i ∷ is) ids =
      let filled = fill_ids max_items is (add_id i.news_id ids) in
      if leb max_items (length ids) then ids else filled

  unfoldable pub selected_ids : ℕ → List (WeightedNewsItem V) → List String
  unfolding cover_assets fill_ids
  selected_ids max_items ranked = fill_ids max_items ranked (cover_assets primary_assets ranked [])

  -- `_select_items`
  unfoldable pub select_items : ℕ → List (WeightedNewsItem V) → List (WeightedNewsItem V)
  unfolding selected_ids
  select_items max_items ranked =
      if leb (length ranked) max_items
      then ranked
      else take max_items (
          select (λ (i : WeightedNewsItem V). has_id (selected_ids max_items ranked) i.news_id)
            ranked)

-- `half_power x` is `0.5 ** x`, and `age_of` the age in hours of the text of a time at the run's
-- time, none if the text is no time with a zone.
module _ {V Stamp : Type 0} (n : Numbers V) (half_power : V → V) (unescape : String → String)
    (age_of : String → Stamp → Option V) where
  -- `decay_factor`
  unfoldable pub decay_factor : V → V → Ended V
  unfolding clamped
  decay_factor elapsed half_life =
      if n.is_le half_life (n.decimal 0 0)
      then raised "ValueError"
      else (if n.is_le elapsed (n.decimal 0 0)
          then returned (n.decimal 10 1)
          else returned (unit n (half_power (n.over elapsed half_life))))

  -- `_half_life`, with no event type
  unfoldable pub half_life_of : HalfLives V → Ended V
  unfolding lookup
  half_life_of h =
      let default = or_else (lookup "default" h.news_half_life_hours) (n.decimal 120 1) in
      if n.is_le default (n.decimal 0 0) then raised "ValueError" else returned default

  -- `_quality`
  unfoldable pub quality_of : SourceQuality V → String → V
  unfolding lookup clamped
  quality_of q source = unit n (or_else (lookup source q.sources) q.default_quality)

  -- `_is_fresh`
  abbrev pub is_fresh_age : V → Option V → Bool
  is_fresh_age max_age none = false
  is_fresh_age max_age (some age) = n.is_le (n.decimal 0 1) age && n.is_le age max_age

  -- `_effective_weight`
  unfoldable pub effective_weight : V → V → V → V
  unfolding clamped
  effective_weight quality relevance decay = unit n (n.times (n.times quality relevance) decay)

  -- The weights of the assets of positive relevance, in the order of the sorted targets.
  unfoldable pub asset_weights : V → V → Dict V → Dict (AssetNewsWeight V)
  unfolding effective_weight clamped
  asset_weights quality decay [] = []
  asset_weights quality decay ((a, r) ∷ rs) =
      let rest = asset_weights quality decay rs in
      if n.is_le (unit n r) (n.decimal 0 1)
      then rest
      else (
        a,
        record {
          relevance = unit n r;
          effective_weight = effective_weight quality (unit n r) decay;
        },
      )
        ∷ rest

  -- `max(...)` of the effective weights, of which there is one at least
  unfoldable pub greatest_weight : V → Dict (AssetNewsWeight V) → V
  greatest_weight w [] = w
  greatest_weight w ((a, x) ∷ xs) = greatest_weight (larger n w x.effective_weight) xs

  abbrev pub weighted_with :
      NewsItem V → V → V → Dict (AssetNewsWeight V) → List (WeightedNewsItem V)
  weighted_with item quality decay [] = []
  weighted_with item quality decay ((a, w) ∷ ws) =
      record {
        news_id = item.news_id;
        title = item.title;
        evidence_text = evidence_text unescape item.body;
        source = item.source;
        published_at = item.published_at;
        source_quality = quality;
        recency_decay = decay;
        asset_weights = (a, w) ∷ ws;
        max_effective_weight = greatest_weight w.effective_weight ws;
      }
      ∷ []

  abbrev pub is_positive : String × V → Bool
  is_positive e = n.is_lt (n.decimal 0 1) e.1

  module _ (quality : SourceQuality V) (half_lives : HalfLives V) (now : Stamp) where
    -- One round of the loop: what it appends.
    unfoldable pub weigh_item : V → List String → NewsItem V → Ended (List (WeightedNewsItem V))
    unfolding relevance_map evidence_text decay_factor quality_of asset_weights greatest_weight
        clamped
    weigh_item half_life targets item =
        let relevances = relevance_map n unescape item targets in
        let age = age_of item.published_at now in
        if any is_positive relevances && is_fresh_age half_lives.max_news_age_hours age
        then and_then (decay_factor (or_else age (n.decimal 0 0)) half_life) (λ d. returned (
            weighted_with item (quality_of quality item.source) (unit n d)
              (asset_weights (quality_of quality item.source) (unit n d) relevances)))
        else returned []

    unfoldable pub weigh_all :
        V → List String → List (NewsItem V) → Ended (List (WeightedNewsItem V))
    unfolding weigh_item
    weigh_all half_life targets [] = returned []
    weigh_all half_life targets (i ∷ is) =
        and_then (weigh_item half_life targets i)
          (λ ws. and_then (weigh_all half_life targets is) (λ rest. returned (ws ++ rest)))

    -- The order of the key `(-max_effective_weight, news_id)`.
    abbrev pub ranked_before : WeightedNewsItem V → WeightedNewsItem V → Bool
    ranked_before a b =
        if n.is_eq a.max_effective_weight b.max_effective_weight
        then str_le a.news_id b.news_id
        else n.is_lt b.max_effective_weight a.max_effective_weight

    abbrev pub digest_with : String → List (WeightedNewsItem V) → NewsDigest V
    digest_with run_id items = record {
      run_id = run_id;
      items = items;
      weighting_versions =
          ("source_quality", quality.version)
          ∷ ("half_lives", half_lives.version)
          ∷ ("relevance_model", "per_asset_v3")
          ∷ [];
    }

    -- `NewsWeigher.weigh`, with no default event type as the orchestrator calls it
    unfoldable pub weigh : String → List (NewsItem V) → List String → Ended (NewsDigest V)
    unfolding half_life_of weigh_all sort select_items normalized_assets
    weigh run_id items target_assets =
        let targets = normalized_assets target_assets in
        if is_empty targets
        then returned (digest_with run_id [])
        else (if is_empty items
            then returned (digest_with run_id [])
            else and_then (half_life_of half_lives) (λ half_life.
              and_then (weigh_all half_life targets items)
                (λ ws. returned (digest_with run_id (select_items 40 (sort ranked_before ws))))))
