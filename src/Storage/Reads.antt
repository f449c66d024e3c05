-- ===== src/Storage/Reads.antt =====
-- The queries of src/market_state_engine/persistence/repositories.py on the tables of the runs: a
-- table is a list of rows in the order of insertion, which is the order of its sequence numbers.
pub mod Pages
pub mod Unordered
use tread_agent.Base.{
  ℕ, suc, max, String, Bool, true, false, not, ◌&&◌, Option, none, some, List, [], ◌∷◌, ◌++◌, map,
  select, take, drop, length, leb, ltb, ◌==◌, str_eq, if◌then◌else◌,
}
use tread_agent.Base.Sort.{sort}
use tread_agent.Base.Order.{str_le}
use tread_agent.Reasoning.Gateway.Attempt.{CallRecord}
use tread_agent.Pipeline.Store.{
  TriggerType, scheduled, event, EventType, MacroEvent, RunDoc, EventLogRow, RunRow, RunOutputRow,
  CallRecordRow, RuleActivationRow, MacroEventRow,
}

-- `RunRepository.next_sequence`
unfoldable pub greatest_sequence : List RunRow → ℕ
greatest_sequence [] = 0
greatest_sequence (r ∷ rs) = max r.run_sequence (greatest_sequence rs)

unfoldable pub next_sequence : List RunRow → ℕ
unfolding greatest_sequence
next_sequence rows = suc (greatest_sequence rows)

abbrev pub same_trigger : TriggerType → TriggerType → Bool
same_trigger scheduled scheduled = true
same_trigger event event = true
same_trigger _ _ = false

-- `stmt.where(...)`, if a trigger type is given
abbrev pub has_trigger : Option TriggerType → RunRow → Bool
has_trigger none r = true
has_trigger (some t) r = same_trigger r.trigger_type t

-- The row with the primary key.
unfoldable pub run_of : String → List RunRow → Option RunRow
run_of run_id [] = none
run_of run_id (r ∷ rs) = if str_eq r.run_id run_id then some r else run_of run_id rs

abbrev pub Joined : (V Json : Type 0) → Type 0
Joined V Json = RunOutputRow V Json × RunRow

module _ {V Json : Type 0} where
  -- `RunRepository.get`
  unfoldable pub get_output : String → List (RunOutputRow V Json) → Option (RunDoc V Json)
  get_output run_id [] = none
  get_output run_id (o ∷ os) =
      if str_eq o.run_id run_id then some o.market_state_run else get_output run_id os

  abbrev pub with_run : RunOutputRow V Json → Option RunRow → List (Joined V Json)
  with_run o none = []
  with_run o (some r) = (o, r) ∷ []

  -- The inner join of outputs and runs.
  unfoldable pub join_runs : List (RunOutputRow V Json) → List RunRow → List (Joined V Json)
  unfolding run_of
  join_runs [] rows = []
  join_runs (o ∷ os) rows = with_run o (run_of o.run_id rows) ++ join_runs os rows

  -- The order of the latest runs: later ones first.
  abbrev pub later_first : Joined V Json → Joined V Json → Bool
  later_first a b =
      if a.0.persisted_at == b.0.persisted_at
      then (if a.1.run_sequence == b.1.run_sequence
          then str_le b.0.run_id a.0.run_id
          else ltb b.1.run_sequence a.1.run_sequence)
      else ltb b.0.persisted_at a.0.persisted_at

  unfoldable pub ordered_ids :
      Option TriggerType → List (RunOutputRow V Json) → List RunRow → List String
  unfolding join_runs sort
  ordered_ids trigger_type outputs rows =
      map (λ (j : Joined V Json). j.0.run_id)
        (sort later_first
          (select (λ (j : Joined V Json). has_trigger trigger_type j.1) (join_runs outputs rows)))

  abbrev pub put_doc : Option (RunDoc V Json) → List (RunDoc V Json) → List (RunDoc V Json)
  put_doc none ds = ds
  put_doc (some d) ds = d ∷ ds

  -- `[o for o in (get(id) for id in ids) if o is not None]`
  unfoldable pub documents_of : List String → List (RunOutputRow V Json) → List (RunDoc V Json)
  unfolding get_output
  documents_of [] outputs = []
  documents_of (id ∷ ids) outputs = put_doc (get_output id outputs) (documents_of ids outputs)

  -- `RunRepository.list_runs`
  unfoldable pub list_runs :
      Option TriggerType
      → (limit offset : ℕ) → List (RunOutputRow V Json)
      → List RunRow
      → List (RunDoc V Json)
  unfolding ordered_ids documents_of
  list_runs trigger_type limit offset outputs rows =
      documents_of (take limit (drop offset (ordered_ids trigger_type outputs rows))) outputs

  abbrev pub first_doc : List String → List (RunOutputRow V Json) → Option (RunDoc V Json)
  first_doc [] outputs = none
  first_doc (id ∷ ids) outputs = get_output id outputs

  -- `RunRepository.latest`
  unfoldable pub latest : List (RunOutputRow V Json) → List RunRow → Option (RunDoc V Json)
  unfolding ordered_ids get_output
  latest outputs rows = first_doc (take 1 (ordered_ids none outputs rows)) outputs

  -- `CallRecordRepository.list_for_run`
  abbrev pub call_le : CallRecordRow V Json → CallRecordRow V Json → Bool
  call_le a b =
      if str_eq a.fields.created_at b.fields.created_at
      then leb a.fields.attempt_index b.fields.attempt_index
      else str_le a.fields.created_at b.fields.created_at

  unfoldable pub calls_for_run : String → List (CallRecordRow V Json) → List (CallRecord Json V)
  unfolding sort
  calls_for_run run_id rows =
      map (λ (r : CallRecordRow V Json). r.fields)
        (sort call_le (select (λ (r : CallRecordRow V Json). str_eq r.fields.run_id run_id) rows))

-- `EventLogRepository.list_for_run`
abbrev pub is_of_run : String → Option String → Bool
is_of_run run_id none = false
is_of_run run_id (some r) = str_eq r run_id

unfoldable pub events_for_run : String → List EventLogRow → List EventLogRow
events_for_run run_id rows = select (λ (r : EventLogRow). is_of_run run_id r.run_id) rows

-- `RuleActivationRepository.list_for_run`
unfoldable pub activations_for_run :
    {V : Type 0} → String → List (RuleActivationRow V) → List (RuleActivationRow V)
activations_for_run run_id rows = select (λ r. str_eq r.run_id run_id) rows
