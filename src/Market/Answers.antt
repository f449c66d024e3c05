-- ===== src/Market/Answers.antt =====
-- What src/market_state_engine/pipeline/orchestrator.py takes of the digest and of the answers of the
-- language models.
use tread_agent.Base.{
  String, Bool, Option, none, some, List, [], ◌∷◌, ◌++◌, map, select, any, str_eq, if◌then◌else◌,
}
use tread_agent.Base.Dict.{Dict, lookup}
use tread_agent.Base.Sort.{sort}
use tread_agent.Base.Order.{str_le}
use tread_agent.Rules.Conflict.{ConflictFlag}
use tread_agent.Market.Models.{warning, GuardrailFlag}
use tread_agent.Market.Messages.{WeightedNewsItem, NewsDigest, SentimentResponse}

-- A set as a list without duplicates.
unfoldable pub distinct : List String → List String
distinct [] = []
distinct (x ∷ xs) = if any (str_eq x) xs then distinct xs else x ∷ distinct xs

abbrev pub keys_of : {A : Type 0} → Dict A → List String
keys_of d = map (λ e. e.0) d

unfoldable pub assets_in : {V : Type 0} → List (WeightedNewsItem V) → List String
assets_in [] = []
assets_in (i ∷ is) = keys_of i.asset_weights ++ assets_in is

-- `_digest_assets`
unfoldable pub digest_assets : {V : Type 0} → NewsDigest V → List String
unfolding sort distinct assets_in
digest_assets digest = sort str_le (distinct (assets_in digest.items))

abbrev pub warning_flag : String → GuardrailFlag
warning_flag code = record { code = code; severity = warning; field = none }

abbrev pub flag_if : Bool → String → List GuardrailFlag
flag_if test code = if test then warning_flag code ∷ [] else []

-- The sentiment is kept for the assets of the evidence.
abbrev pub filtered : {V : Type 0} → List String → SentimentResponse V → SentimentResponse V
filtered allowed r = record r {
  per_asset_sentiment = select (λ e. any (str_eq e.0) allowed) r.per_asset_sentiment;
}

abbrev pub filtered_answer :
    {V : Type 0} → List String → Option (SentimentResponse V) → Option (SentimentResponse V)
filtered_answer allowed none = none
filtered_answer allowed (some r) = some (filtered allowed r)

-- `_sentiment_map`
abbrev pub sentiment_map : {V : Type 0} → Option (SentimentResponse V) → Option (Dict V)
sentiment_map none = none
sentiment_map (some r) = some r.per_asset_sentiment

abbrev pub conflict_flags : List ConflictFlag → List GuardrailFlag
conflict_flags findings = map (λ (f : ConflictFlag). warning_flag "rule_conflict") findings

-- What a dict that may be None has at the key.
abbrev pub dict_at : {A : Type 0} → Option (Dict A) → String → Option A
dict_at none symbol = none
dict_at (some d) symbol = lookup symbol d
