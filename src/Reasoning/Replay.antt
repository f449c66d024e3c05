-- ===== src/Reasoning/Replay.antt =====
-- src/market_state_engine/reasoning/replay.py and adapters/replay.py: recorded attempts served again
-- in their order, and the comparison of two traces of call records.
pub mod Served
pub mod Rebuilt
pub mod Attempts
pub mod Repeated
pub mod Told
pub mod Again
pub mod Same
pub mod Reproduced
pub mod Verified
use tread_agent.Base.{
  is_empty, ℕ, zero, suc, min, String, Bool, true, false, not, ◌&&◌, Option, none, some, List, [],
  ◌∷◌, ◌++◌, map, any, length, ◌==◌, str_eq, or_else, if◌then◌else◌,
}
use tread_agent.Base.Dict.{Dict, lookup, insert}
use tread_agent.Base.Sort.{sort}
use tread_agent.Base.Order.{str_le}
use tread_agent.Reasoning.Types.{
  LlmJob, sentiment, synthesis, Outcome, success, timeout, error, circuit_open, Raised,
  provider_call_error, provider_timeout_error, Result, ok, err, RenderedPrompt, RawProviderResult,
}
use tread_agent.Reasoning.Gateway.Attempt.{CallRecord}

-- A replay provider: its name, and the queue of its records for each prompt hash.
pub record ReplayProvider (D C : Type 0) : Type 0 where
  pub name : String
  pub by_hash : Dict (List (CallRecord D C))

module _ {D C : Type 0} where
  -- `self._by_hash[hash].append(record)`, on a defaultdict
  abbrev pub enqueue : CallRecord D C → Dict (List (CallRecord D C)) → Dict (List (CallRecord D C))
  enqueue r d = insert r.prompt_hash (or_else (lookup r.prompt_hash d) [] ++ r ∷ []) d

  unfoldable pub queues_from :
      String → List (CallRecord D C) → Dict (List (CallRecord D C)) → Dict (List (CallRecord D C))
  unfolding lookup insert
  queues_from name [] d = d
  queues_from name (r ∷ rs) d =
      queues_from name rs (if str_eq r.provider name then enqueue r d else d)

  -- `ReplayProvider.__init__`
  unfoldable pub new_replay : String → List (CallRecord D C) → ReplayProvider D C
  unfolding queues_from
  new_replay name records = record { name = name; by_hash = queues_from name records [] }

  -- The providers of the records, each once, sorted.
  unfoldable pub provider_names : List (CallRecord D C) → List String
  provider_names [] = []
  provider_names (r ∷ rs) =
      let names = provider_names rs in
      if any (str_eq r.provider) names then names else r.provider ∷ names

  unfoldable pub adapters_for : List String → List (CallRecord D C) → Dict (ReplayProvider D C)
  unfolding new_replay
  adapters_for [] records = []
  adapters_for (name ∷ names) records = (name, new_replay name records) ∷ adapters_for names records

  -- `build_replay_adapters`
  unfoldable pub build_replay_adapters : List (CallRecord D C) → Dict (ReplayProvider D C)
  unfolding provider_names adapters_for sort
  build_replay_adapters records = adapters_for (sort str_le (provider_names records)) records

  -- `dumps` is `json.dumps` with sorted keys. The numbers of a timeout are in the text of its message
  -- only, and are 0 here.
  module _ (dumps : Option D → String) where
    abbrev pub served : CallRecord D C → RawProviderResult
    served r = record {
      text = dumps r.response;
      input_tokens = r.input_tokens;
      output_tokens = r.output_tokens;
      finish_reason = r.finish_reason;
    }

    -- `_result_from_record`, by the outcome of the record
    abbrev pub result_by : String → CallRecord D C → Outcome → Result RawProviderResult
    result_by name r success = ok (served r)
    result_by name r timeout = err (provider_timeout_error name 0 0)
    result_by name r error = err (provider_call_error name)
    result_by name r circuit_open = err (provider_call_error name)

    abbrev pub result_from_record : String → CallRecord D C → Result RawProviderResult
    result_from_record name r = result_by name r r.outcome

    -- `if not queue: raise`, else `queue.popleft()`
    abbrev pub answer_from :
        ReplayProvider D C
        → String
        → List (CallRecord D C)
        → Result RawProviderResult × ReplayProvider D C
    answer_from p hash [] = (err (provider_call_error p.name), p)
    answer_from p hash (r ∷ rs) =
        (result_from_record p.name r, record p { by_hash = insert hash rs p.by_hash })

    -- `ReplayProvider.complete`
    unfoldable pub complete :
        ReplayProvider D C → RenderedPrompt → Result RawProviderResult × ReplayProvider D C
    unfolding lookup insert
    complete p prompt =
        answer_from p prompt.prompt_hash (or_else (lookup prompt.prompt_hash p.by_hash) [])

-- `_COMPARED_FIELDS`
pub data ComparedField : Type 0 where
  run_id llm_job attempt_index provider model_id : ComparedField
  prompt_version prompt_hash response_hash outcome : ComparedField

abbrev pub compared_fields : List ComparedField
compared_fields =
    run_id ∷ llm_job ∷ attempt_index ∷ provider ∷ model_id ∷ prompt_version ∷ prompt_hash
    ∷ response_hash ∷ outcome ∷ []

-- A value of a field, or a count of records.
pub data FieldValue : Type 0 where
  text : String → FieldValue
  number : ℕ → FieldValue
  job : LlmJob → FieldValue
  hash : Option String → FieldValue
  result : Outcome → FieldValue

-- `getattr(record, name)`
abbrev pub value_at : {D C : Type 0} → ComparedField → CallRecord D C → FieldValue
value_at run_id r = text r.run_id
value_at llm_job r = job r.llm_job
value_at attempt_index r = number r.attempt_index
value_at provider r = text r.provider
value_at model_id r = text r.model_id
value_at prompt_version r = text r.prompt_version
value_at prompt_hash r = text r.prompt_hash
value_at response_hash r = hash r.response_hash
value_at outcome r = result r.outcome

abbrev pub same_job : LlmJob → LlmJob → Bool
same_job sentiment sentiment = true
same_job synthesis synthesis = true
same_job _ _ = false

abbrev pub same_outcome : Outcome → Outcome → Bool
same_outcome success success = true
same_outcome timeout timeout = true
same_outcome error error = true
same_outcome circuit_open circuit_open = true
same_outcome _ _ = false

abbrev pub same_hash : Option String → Option String → Bool
same_hash none none = true
same_hash (some a) (some b) = str_eq a b
same_hash _ _ = false

-- `av == bv`
unfoldable pub same_value : FieldValue → FieldValue → Bool
same_value (text a) (text b) = str_eq a b
same_value (number a) (number b) = a == b
same_value (job a) (job b) = same_job a b
same_value (hash a) (hash b) = same_hash a b
same_value (result a) (result b) = same_outcome a b
same_value _ _ = false

pub data DiffField : Type 0 where
  record_count : DiffField
  field_of : (index : ℕ) → ComparedField → DiffField

pub record RecordDiff : Type 0 where
  pub field : DiffField
  pub recorded : FieldValue
  pub replayed : FieldValue

pub record ReplayVerification : Type 0 where
  pub matched : Bool
  pub compared : ℕ
  pub diffs : List RecordDiff

-- `if av != bv: diffs.append(...)`
abbrev pub diff_unless : Bool → DiffField → FieldValue → FieldValue → List RecordDiff
diff_unless same f a b = if same then [] else record { field = f; recorded = a; replayed = b } ∷ []

module _ {D C : Type 0} where
  unfoldable pub field_diffs :
      ℕ → List ComparedField → CallRecord D C → CallRecord D C → List RecordDiff
  unfolding same_value
  field_diffs i [] a b = []
  field_diffs i (f ∷ fs) a b =
      diff_unless (same_value (value_at f a) (value_at f b)) (field_of i f) (value_at f a)
        (value_at f b)
      ++ field_diffs i fs a b

  -- The loop over the zipped records.
  unfoldable pub zip_diffs : ℕ → List (CallRecord D C) → List (CallRecord D C) → List RecordDiff
  unfolding field_diffs
  zip_diffs i (a ∷ as') (b ∷ bs) = field_diffs i compared_fields a b ++ zip_diffs (suc i) as' bs
  zip_diffs i _ _ = []

  -- `verify_replay`
  unfoldable pub verify_replay : List (CallRecord D C) → List (CallRecord D C) → ReplayVerification
  unfolding zip_diffs
  verify_replay rec rep =
      let diffs =
        diff_unless (length rec == length rep) record_count (number (length rec))
          (number (length rep))
        ++ zip_diffs 0 rec rep in
      record { matched = is_empty diffs; compared = min (length rec) (length rep); diffs = diffs }
