-- ===== src/News/Relevance.antt =====
-- src/market_state_engine/news/relevance.py: how relevant a news item is for each tracked asset.
-- `html.unescape` is a parameter.
pub mod Signals
pub mod Tags
use Prim.Native.Char.{Char, code}
use Prim.Native.String
use Prim.Native.String.{◌++◌ as ◌<>◌}
use tread_agent.Base.{
  ℕ, zero, suc, String, Bool, true, false, not, ◌&&◌, Option, none, some, List, [], ◌∷◌, ◌++◌, map,
  select, any, or_else, ◌==◌, str_eq, if◌then◌else◌,
}
use tread_agent.Base.Dict.{Dict, lookup}
use tread_agent.Base.Sort.{sort}
use tread_agent.Base.Order.{str_le}
use tread_agent.Rules.Condition.{is_space, in_range}
use tread_agent.Market.Numbers.{Numbers, larger, zero_point, clamped, unit}
use tread_agent.Market.Answers.{distinct}
use tread_agent.News.Patterns.{Pattern, mentions, text_length}
use tread_agent.News.Direct.{direct_asset_patterns}
use tread_agent.News.Topics.{MacroTopic, macro_topics}

-- core/dtos.NewsItem
pub record NewsItem (V : Type 0) : Type 0 where
  pub news_id : String
  pub title : String
  pub source : String
  pub published_at : String
  pub body : Option String
  pub asset_tags : Option (List String)
  pub relevance : Option V

-- What follows the first character that passes the test.
unfoldable pub after_char : (Char → Bool) → String → Option String
after_char test String.[] = none
after_char test (String.◌∷◌ c s) = if test c then some s else after_char test s

abbrev pub is_close : Char → Bool
is_close c = code c == 62

-- `[^>]+>` from here on
abbrev pub after_tag : String → Option String
after_tag String.[] = none
after_tag (String.◌∷◌ c s) = if is_close c then none else after_char is_close s

-- `re.sub(r"<[^>]+>", " ", text)`. A cut at a tag uses
-- one unit of fuel, and so does a character that is kept.
unfoldable pub without_tags_from : ℕ → String → String
unfolding after_char
without_tags_from zero s = ""
without_tags_from (suc fuel) String.[] = ""
without_tags_from (suc fuel) (String.◌∷◌ c s) =
    let kept = String.◌∷◌ c (without_tags_from fuel s) in
    if code c == 60
    then elim (after_tag s) [ none ↦ kept | some rest ↦ " " <> without_tags_from fuel rest ]
    else kept

unfoldable pub without_tags : String → String
unfolding without_tags_from text_length
without_tags s = without_tags_from (suc (text_length s)) s

-- `re.sub(r"\s+", " ", text).strip()`: whether a word has begun, and whether spaces are pending.
unfoldable pub single_spaced : (begun pending : Bool) → String → String
unfolding is_space
single_spaced begun pending String.[] = ""
single_spaced begun pending (String.◌∷◌ c s) =
    if is_space c
    then single_spaced begun true s
    else (let rest = String.◌∷◌ c (single_spaced true false s) in
        if begun && pending then " " <> rest else rest)

-- `text[:n]`
unfoldable pub first_chars : ℕ → String → String
first_chars zero s = ""
first_chars (suc n) String.[] = ""
first_chars (suc n) (String.◌∷◌ c s) = String.◌∷◌ c (first_chars n s)

-- The character at the same position of the second text.
unfoldable pub translated : String → String → Char → Char
translated String.[] us c = c
translated (String.◌∷◌ l ls) String.[] c = c
translated (String.◌∷◌ l ls) (String.◌∷◌ u us) c =
    if code c == code l then u else translated ls us c

-- `text.upper()` of an ASCII text
unfoldable pub upper : String → String
unfolding translated
upper String.[] = ""
upper (String.◌∷◌ c s) =
    String.◌∷◌ (translated "abcdefghijklmnopqrstuvwxyz" "ABCDEFGHIJKLMNOPQRSTUVWXYZ" c) (upper s)

-- `text.strip()`: `pending` are the spaces since the last other character.
unfoldable pub stripped : (begun : Bool) → (pending : String) → String → String
unfolding is_space
stripped begun pending String.[] = ""
stripped begun pending (String.◌∷◌ c s) =
    if is_space c
    then stripped begun (if begun then pending <> String.◌∷◌ c "" else "") s
    else pending <> String.◌∷◌ c (stripped true "" s)

abbrev pub is_blank : String → Bool
is_blank String.[] = true
is_blank (String.◌∷◌ c s) = false

-- `_normalize_assets`, sorted as its uses sort it
unfoldable pub normalized_assets : List String → List String
unfolding upper stripped distinct sort
normalized_assets assets =
    sort str_le
      (distinct (map upper (select (λ a. not (is_blank a)) (map (stripped false "") assets))))

-- `asset in assets`
abbrev pub is_in : List String → String → Bool
is_in assets asset = any (str_eq asset) assets

module _ (unescape : String → String) where
  -- `build_evidence_text`
  unfoldable pub evidence_text : Option String → String
  unfolding without_tags single_spaced first_chars
  evidence_text body =
      first_chars 2000 (single_spaced false false (unescape (without_tags (or_else body ""))))

  -- `_article_text`
  abbrev pub article_text : {V : Type 0} → NewsItem V → String
  article_text item = item.title <> "\n" <> evidence_text item.body

-- The patterns of the asset, if it has any, find it in the text.
abbrev pub found_by : Option (List Pattern) → String → Bool
found_by none text = false
found_by (some patterns) text = mentions patterns text

-- `_match_direct_assets`, for one asset
unfoldable pub is_direct : String → String → Bool
unfolding lookup mentions
is_direct text asset = found_by (lookup asset direct_asset_patterns) text

module _ {V : Type 0} (n : Numbers V) where
  -- `scores[asset] = max(scores[asset], _clamp(relevance))`, if the topic is about the asset
  abbrev pub raised_by : Option V → V → V
  raised_by none score = score
  raised_by (some r) score = larger n score (unit n r)

  -- The loop of `_compute_macro_relevance` over the topics, for one asset.
  unfoldable pub macro_from : String → String → List (MacroTopic V) → V → V
  unfolding lookup mentions clamped
  macro_from text asset [] score = score
  macro_from text asset (t ∷ ts) score =
      macro_from text asset ts (
        if mentions t.patterns text
        then raised_by (lookup asset t.asset_relevance) score
        else score)

  unfoldable pub macro_relevance : String → String → V
  unfolding macro_from
  macro_relevance text asset = macro_from text asset (macro_topics n) (n.decimal 0 1)

  -- `scores[asset] = change(asset, scores[asset])` for the assets that pass the test, which are
  -- independent of each other.
  unfoldable pub update_scores : (String → V → Bool) → (String → V → V) → Dict V → Dict V
  update_scores test change [] = []
  update_scores test change ((a, v) ∷ scores) =
      (a, if test a v then change a v else v) ∷ update_scores test change scores

  -- The optional upstream relevance, for assets that have been identified.
  abbrev pub with_upstream : Option V → Dict V → Dict V
  with_upstream none scores = scores
  with_upstream (some r) scores =
      update_scores (λ a v. n.is_lt (n.decimal 0 1) v) (λ a v. larger n v (unit n r)) scores

  abbrev pub tags_of : NewsItem V → List String
  tags_of item = normalized_assets (or_else item.asset_tags [])

  module _ (unescape : String → String) where
    -- The scores before the upstream relevance.
    unfoldable pub identified_scores : NewsItem V → List String → Dict V
    unfolding update_scores is_direct macro_relevance evidence_text normalized_assets
    identified_scores item targets =
        let text = article_text unescape item in
        update_scores (λ a v. true) (λ a v. larger n v (macro_relevance text a))
          (update_scores (λ a v. is_direct text a) (λ a v. larger n v (n.decimal 75 2))
            (update_scores (λ a v. is_in (tags_of item) a) (λ a v. n.decimal 10 1)
              (map (λ a. (a, n.decimal 0 1)) targets)))

    -- `compute_relevance_map`
    unfoldable pub relevance_map : NewsItem V → List String → Dict V
    unfolding identified_scores clamped update_scores
    relevance_map item target_assets =
        with_upstream item.relevance (identified_scores item (normalized_assets target_assets))

    -- `compute_asset_relevance`, of a symbol that is not blank
    abbrev pub asset_relevance : NewsItem V → String → V
    asset_relevance item asset =
        let normalized = upper (stripped false "" asset) in
        if is_blank normalized
        then n.decimal 0 1
        else or_else (lookup normalized (relevance_map item (normalized ∷ []))) (n.decimal 0 1)
