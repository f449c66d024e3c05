-- ===== src/Pipeline/Pending.antt =====
-- What src/market_state_engine/pipeline/event_trigger.py reads of the tables, and its results.
use tread_agent.Base.{
  ℕ, ◌+◌, String, Bool, true, false, not, ◌&&◌, Option, none, some, List, [], ◌∷◌, ◌++◌, map, any,
  select, ltb, str_eq, is_some, if◌then◌else◌,
}
use tread_agent.Base.Sort.{sort}
use tread_agent.Base.Order.{str_le}
use tread_agent.Pipeline.Store.{
  Payload, not_run, triggered, EventLogRow, MacroEvent, MacroEventRow, Tables, Ended, returned,
  raised, triggered_rows,
}
use tread_agent.Pipeline.Scheduler.{Node}

pub record EventTriggerResult (V : Type 0) : Type 0 where
  pub event_id : String
  pub accepted : Bool
  pub surprise : Option V
  pub debounced : Bool
  pub run_id : Option String
  pub run_status : Option String

-- `_event_ids`
abbrev pub event_ids_of : Payload → List String
event_ids_of (not_run _ ids _) = ids
event_ids_of (triggered _ ids _ _) = ids
event_ids_of _ = []

abbrev pub all_event_ids : List EventLogRow → List String
all_event_ids [] = []
all_event_ids (r ∷ rows) = event_ids_of r.payload ++ all_event_ids rows

abbrev pub last_row : List EventLogRow → Option EventLogRow
last_row [] = none
last_row (r ∷ []) = some r
last_row (r ∷ q ∷ rows) = last_row (q ∷ rows)

abbrev pub created_at_of : Option EventLogRow → Option ℕ
created_at_of none = none
created_at_of (some r) = some r.created_at

-- `order_by(scheduled_at, event_id)`
abbrev pub event_le : {V : Type 0} → MacroEvent V → MacroEvent V → Bool
event_le a b =
    if str_eq a.scheduled_at b.scheduled_at
    then str_le a.event_id b.event_id
    else str_le a.scheduled_at b.scheduled_at

abbrev pub stored : {V Json : Type 0} → List (MacroEventRow V Json) → List (MacroEvent V)
stored rows = map (λ r. r.event) rows

-- `_pending_complete_events`, of what its session reads
unfoldable pub waits : {V : Type 0} → List String → MacroEvent V → Bool
waits taken e = is_some e.actual && not (any (str_eq e.event_id) taken)

unfoldable pub pending_of : {V Raw Json : Type 0} → Tables V Raw Json → List (MacroEvent V)
unfolding waits sort triggered_rows
pending_of t =
    select (waits (all_event_ids (triggered_rows t.event_log)))
      (sort event_le (stored t.macro_events))

-- `_last_triggered_at`
unfoldable pub last_triggered_of : {V Raw Json : Type 0} → Tables V Raw Json → Option ℕ
unfolding triggered_rows
last_triggered_of t = created_at_of (last_row (triggered_rows t.event_log))

-- `last_triggered_at is not None and now < last_triggered_at + cooldown`
abbrev pub is_cooling : ℕ → ℕ → Option ℕ → Bool
is_cooling cooldown now none = false
is_cooling cooldown now (some last) = ltb now (last + cooldown)

abbrev pub or_zero : Option ℕ → ℕ
or_zero none = 0
or_zero (some n) = n

abbrev pub and_do :
    {A B Db E : Type 0}
    → Ended A × Node Db E
    → (A → Node Db E → Ended B × Node Db E)
    → Ended B × Node Db E
and_do (returned a, node) k = k a node
and_do (raised x, node) k = (raised x, node)

abbrev pub surprise_of : {V : Type 0} → (V → V → V) → MacroEvent V → Option V
surprise_of minus e = elim e.actual [ none ↦ none | some a ↦ some (minus a e.consensus) ]

abbrev pub result_of :
    {V : Type 0}
    → MacroEvent V
    → Option V
    → Bool
    → Option String
    → Option String
    → EventTriggerResult V
result_of e surprise debounced run_id run_status = record {
  event_id = e.event_id;
  accepted = true;
  surprise = surprise;
  debounced = debounced;
  run_id = run_id;
  run_status = run_status;
}

abbrev pub ids_of : {V : Type 0} → List (MacroEvent V) → List String
ids_of es = map (λ e. e.event_id) es
