-- ===== src/Storage/Keyed.antt =====
-- The tables of src/market_state_engine/persistence/repositories.py that are written by key: news
-- items, market-cap samples and last-good snapshots, and the stores of total_mcap_history.py and
-- last_good.py on them, each call in a session of its own.
pub mod Newest
pub mod History
use tread_agent.Base.{
  ℕ, String, Bool, true, false, not, ◌&&◌, Option, none, some, List, [], ◌∷◌, ◌++◌, map, select,
  take, reverse, is_some, str_eq, if◌then◌else◌,
}
use tread_agent.Base.Sort.{sort}
use tread_agent.Base.Order.{str_le}
use tread_agent.Pipeline.Store.{Ended, returned, raised}

-- core/dtos.RawSnapshot
pub record RawSnapshot (Json : Type 0) : Type 0 where
  pub source_id : String
  pub symbol : Option String
  pub payload : Json
  pub as_of : String
  pub is_stale : Bool
  pub stale_reason : Option String
  pub deviation_flags : List Json
  pub content_hash : String

pub record LastGoodRow (Json : Type 0) : Type 0 where
  pub symbol : String
  pub source_id : String
  pub payload : Json
  pub as_of : String
  pub deviation_flags : List Json
  pub content_hash : String

-- core/dtos.TotalMcapSample, and its row
pub record TotalMcapSample (V : Type 0) : Type 0 where
  pub symbol : String
  pub value : V
  pub as_of : String
  pub run_id : Option String

pub record NewsRow (V Json : Type 0) : Type 0 where
  pub news_id : String
  pub source : String
  pub url : Option String
  pub title : String
  pub published_at : String
  pub source_quality : Option V
  pub raw : Json
  pub ingested_at : String

module _ {V Json : Type 0} where
  -- `NewsRepository.get`
  unfoldable pub find_news : String → List (NewsRow V Json) → Option (NewsRow V Json)
  find_news k [] = none
  find_news k (r ∷ rs) = if str_eq r.news_id k then some r else find_news k rs

  -- `NewsRepository.upsert`, of the row that the item gives: one that exists is kept.
  unfoldable pub upsert_news : NewsRow V Json → List (NewsRow V Json) → List (NewsRow V Json)
  unfolding find_news
  upsert_news row rows = if is_some (find_news row.news_id rows) then rows else rows ++ row ∷ []

-- `a < b` for texts
abbrev pub is_before : String → String → Bool
is_before a b = not (str_le b a)

module _ {Json : Type 0} where
  abbrev pub row_of : String → RawSnapshot Json → LastGoodRow Json
  row_of symbol s = record {
    symbol = symbol;
    source_id = s.source_id;
    payload = s.payload;
    as_of = s.as_of;
    deviation_flags = s.deviation_flags;
    content_hash = s.content_hash;
  }

  unfoldable pub put_snapshot :
      String → RawSnapshot Json → List (LastGoodRow Json) → List (LastGoodRow Json)
  put_snapshot symbol s [] = row_of symbol s ∷ []
  put_snapshot symbol s (r ∷ rs) =
      if str_eq r.symbol symbol
      then (if is_before s.as_of r.as_of then r else row_of symbol s) ∷ rs
      else r ∷ put_snapshot symbol s rs

  -- `LastGoodSnapshotRepository.upsert`
  abbrev pub upsert_for :
      RawSnapshot Json → Option String → List (LastGoodRow Json) → Ended (List (LastGoodRow Json))
  upsert_for s none rows = raised "ValueError"
  upsert_for s (some symbol) rows = returned (put_snapshot symbol s rows)

  unfoldable pub upsert_snapshot :
      RawSnapshot Json → List (LastGoodRow Json) → Ended (List (LastGoodRow Json))
  unfolding put_snapshot
  upsert_snapshot s rows = upsert_for s s.symbol rows

  abbrev pub after_session :
      Ended (List (LastGoodRow Json)) → List (LastGoodRow Json) → List (LastGoodRow Json)
  after_session (returned rows') rows = rows'
  after_session (raised x) rows = rows

  -- `SqlLastGoodSnapshotStore.record`: what the table holds afterwards.
  unfoldable pub record_snapshot :
      RawSnapshot Json → List (LastGoodRow Json) → List (LastGoodRow Json)
  unfolding upsert_snapshot
  record_snapshot s rows = after_session (upsert_snapshot s rows) rows

  unfoldable pub find_snapshot : String → List (LastGoodRow Json) → Option (LastGoodRow Json)
  find_snapshot symbol [] = none
  find_snapshot symbol (r ∷ rs) = if str_eq r.symbol symbol then some r else find_snapshot symbol rs

  abbrev pub restored : LastGoodRow Json → RawSnapshot Json
  restored r = record {
    source_id = r.source_id;
    symbol = some r.symbol;
    payload = r.payload;
    as_of = r.as_of;
    is_stale = true;
    stale_reason = some "last_good";
    deviation_flags = r.deviation_flags;
    content_hash = r.content_hash;
  }

  abbrev pub restored_option : Option (LastGoodRow Json) → Option (RawSnapshot Json)
  restored_option none = none
  restored_option (some r) = some (restored r)

  -- `LastGoodSnapshotRepository.get`
  unfoldable pub get_snapshot : String → List (LastGoodRow Json) → Option (RawSnapshot Json)
  unfolding find_snapshot
  get_snapshot symbol rows = restored_option (find_snapshot symbol rows)

module _ {V : Type 0} where
  abbrev pub same_key : TotalMcapSample V → TotalMcapSample V → Bool
  same_key a b = str_eq a.symbol b.symbol && str_eq a.as_of b.as_of

  -- `TotalMcapSampleRepository.upsert`
  unfoldable pub upsert_sample :
      TotalMcapSample V → List (TotalMcapSample V) → List (TotalMcapSample V)
  upsert_sample s [] = s ∷ []
  upsert_sample s (r ∷ rs) = if same_key r s then s ∷ rs else r ∷ upsert_sample s rs

  abbrev pub later_first : TotalMcapSample V → TotalMcapSample V → Bool
  later_first a b = str_le b.as_of a.as_of

  -- `TotalMcapSampleRepository.list_recent`
  unfoldable pub list_recent :
      String → (limit : ℕ) → List (TotalMcapSample V) → List (TotalMcapSample V)
  unfolding sort
  list_recent symbol limit rows =
      reverse (take limit (sort later_first (select (λ r. str_eq r.symbol symbol) rows)))

  -- `SqlTotalMcapHistoryStore.record_and_list`
  unfoldable pub record_and_list :
      TotalMcapSample V
      → (limit : ℕ) → List (TotalMcapSample V)
      → List (TotalMcapSample V) × List (TotalMcapSample V)
  unfolding upsert_sample list_recent
  record_and_list s limit rows =
      let rows' = upsert_sample s rows in (list_recent s.symbol limit rows', rows')
