-- ===== src/Pipeline/Trigger.antt =====
-- src/market_state_engine/pipeline/event_trigger.py: macro events, persisted once, and the runs that
-- they cause, at most one per cool-down. A time is in microseconds.
pub mod Holds
pub mod Kept
pub mod Runs
pub mod Pending
pub mod Once
pub mod Debounce
pub mod Starts
use tread_agent.Base.{
  ℕ, ◌+◌, ◌-◌, ◌*◌, String, Bool, true, false, not, ◌&&◌, Option, none, some, List, [], ◌∷◌, ◌++◌,
  map, any, select, length, ltb, str_eq, is_some, if◌then◌else◌,
}
use tread_agent.Base.Sort.{sort}
use tread_agent.Base.Order.{str_le}
use tread_agent.Pipeline.Store.{
  EventType, event_accepted, event_debounced, event_triggered, event_failed, Payload, entered,
  not_run, triggered, cooling, run_overlap, EventLogRow, MacroEvent, MacroEventRow, Tables,
  macro_row, Ended, returned, raised, Backend, in_session, find_event, triggered_rows,
}
use tread_agent.Pipeline.Runner.{Outside, RunService, RunSummary, record_event}
use tread_agent.Pipeline.Scheduler.{Providers, Node, run_event}
use tread_agent.Pipeline.Pending.{
  EventTriggerResult, event_ids_of, all_event_ids, last_row, created_at_of, event_le, stored, waits,
  pending_of, last_triggered_of, is_cooling, or_zero, and_do, surprise_of, result_of, ids_of,
}

module _ {V Raw Json Db S : Type 0} (db : Backend V Raw Json Db S) where
  unfoldable pub on_db :
      {A E : Type 0} → (S × E → Ended A × S × E) → Node Db E → Ended A × Node Db E
  unfolding in_session
  on_db body node =
      let (r, d, e) = in_session db body node.data_base node.env in
      (r, record node { data_base = d; env = e })

  abbrev pub reading : {A E : Type 0} → (Tables V Raw Json → A) → Node Db E → Ended A × Node Db E
  reading f = on_db (λ w. (returned (f (db.tables w.0)), w.0, w.1))

  -- `_record`
  unfoldable pub note :
      {E : Type 0}
      → Outside V Raw Json E
      → EventType
      → Payload
      → Option String
      → Node Db E
      → Ended Unit × Node Db E
  unfolding on_db record_event
  note outside event_type payload run_id =
      on_db (λ w.
        let (s, e) = record_event db outside event_type payload run_id w in (returned tt, s, e))

  -- `MacroEventRepository.add_if_absent`. Another writer's row between its read and its flush is not
  -- modelled.
  unfoldable pub add_if_absent :
      {E : Type 0}
      → (V → V → V)
      → MacroEvent V
      → Json
      → ℕ
      → S × E
      → Ended (MacroEventRow V Json × Bool) × S × E
  unfolding find_event
  add_if_absent minus e raw now (s, env) = elim (find_event e.event_id (db.tables s).macro_events) [
    | some row ↦ (returned (row, false), s, env)
    | none ↦
        let row : MacroEventRow V Json = record {
          event = e;
          surprise = surprise_of minus e;
          raw = raw;
          ingested_at = now;
        } in
        (returned (row, true), db.add (macro_row row) s, env)
  ]

module _ {V Raw Json Db S E : Type 0} (db : Backend V Raw Json Db S)
    (outside : Outside V Raw Json E) (service : RunService) (providers : Providers V Raw Json E)
    (minus : V → V → V) (cooldown : ℕ) where
  -- The handlers of `_execute_pending`, and its last part.
  unfoldable pub after_run :
      MacroEvent V
      → MacroEvent V
      → List (MacroEvent V)
      → Ended RunSummary × Node Db E
      → Ended (EventTriggerResult V) × Node Db E
  unfolding note
  after_run submitted primary pending (returned summary, node) =
      and_do
        (note db outside event_triggered
          (triggered primary.event_id (ids_of pending) (length pending - 1) summary.status)
          (some summary.run_id) node)
        (λ _ node'. (
          returned (
              result_of submitted (surprise_of minus submitted) false (some summary.run_id)
                (some summary.status)),
          node',
        ))
  after_run submitted primary pending (raised x, node) =
      if str_eq x "OverlapError"
      then and_do
          (note db outside event_debounced (run_overlap submitted.event_id (length pending)) none
            node)
          (λ _ node'. (returned (result_of submitted none true none none), node'))
      else and_do
          (note db outside event_failed (not_run submitted.event_id (ids_of pending) x) none node)
          (λ _ node'. (
            returned (result_of submitted (surprise_of minus submitted) false none (some "failed")),
            node',
          ))

  -- `_execute_pending`
  unfoldable pub execute_pending :
      MacroEvent V → List (MacroEvent V) → Node Db E → Ended (EventTriggerResult V) × Node Db E
  unfolding after_run run_event
  execute_pending submitted [] node = (returned (result_of submitted none false none none), node)
  execute_pending submitted (primary ∷ rest) node = after_run submitted primary (primary ∷ rest) (
      run_event db outside service providers (primary ∷ rest) primary.event_id
        (length (primary ∷ rest) - 1) node)

  -- `submit`, once the pending events and the last trigger are known
  unfoldable pub decide_run :
      MacroEvent V
      → ℕ
      → List (MacroEvent V)
      → Option ℕ
      → Node Db E
      → Ended (EventTriggerResult V) × Node Db E
  unfolding execute_pending note
  decide_run e now pending last node =
      if is_cooling cooldown now last
      then and_do
          (note db outside event_debounced
            (cooling e.event_id (length pending) (or_zero last + cooldown)) none node)
          (λ _ node'. (returned (result_of e (surprise_of minus e) true none none), node'))
      else execute_pending e pending node

  unfoldable pub admit_complete :
      MacroEvent V → ℕ → Node Db E → Ended (EventTriggerResult V) × Node Db E
  unfolding decide_run on_db pending_of last_triggered_of
  admit_complete e now node = and_do (reading db pending_of node) λ pending node'.
      and_do (reading db last_triggered_of node')
        λ last node''. decide_run e now pending last node''

  unfoldable pub accept :
      MacroEvent V
      → ℕ
      → MacroEventRow V Json × Bool
      → Node Db E
      → Ended (EventTriggerResult V) × Node Db E
  unfolding admit_complete note
  accept e now (row, created) node =
      if created
      then and_do (note db outside event_accepted (entered e.event_id e.event_type) none node)
          (λ _ node'.
            if is_some e.actual
            then admit_complete e now node'
            else (returned (result_of e none false none none), node'))
      else (returned (result_of row.event row.surprise false none none), node)

  -- `submit`
  unfoldable pub submit : MacroEvent V → Json → Node Db E → Ended (EventTriggerResult V) × Node Db E
  unfolding accept add_if_absent on_db
  submit e raw node =
      let (now, env) = outside.clock node.env in
      and_do (on_db db (add_if_absent db minus e raw now) (record node { env = env }))
        (accept e now)
