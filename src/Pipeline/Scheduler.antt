-- ===== src/Pipeline/Scheduler.antt =====
-- src/market_state_engine/pipeline/scheduler.py: the identity of a run and the lock that refuses a
-- second one while it is in flight. The ingestion and the previous regime are parameters.
pub mod Numbered
use tread_agent.Base.{
  ℕ, suc, String, Bool, true, false, Option, none, some, List, str_eq, if◌then◌else◌,
}
use tread_agent.Pipeline.Store.{
  TriggerType, scheduled, event, MacroEvent, IngestBundle, Ended, returned, raised, Backend,
  in_session,
}
use tread_agent.Storage.Reads.{next_sequence}
use tread_agent.Pipeline.Runner.{
  TriggerDetail, RunContext, RunSummary, RunService, Outside, execute,
}

pub data ExecutionMode : Type 0 where
  scheduled_mode manual replay_mode : ExecutionMode

-- The sequence numbers: `_counter`, or `_next_run_sequence` of app/container.py, which reads the
-- stored runs in a session of its own.
pub data SequenceSource : Type 0 where
  counted stored_runs : SequenceSource

-- `locked` is the lock, `n` the state of `_counter`.
pub record Scheduler : Type 0 where
  pub locked : Bool
  pub n : ℕ

-- The providers that are given to the scheduler, and the run ids.
pub record Providers (V Raw Json E : Type 0) : Type 0 where
  pub new_run_id : E → String × E
  pub sequence : SequenceSource
  pub previous : E → Ended Json × E
  pub ingest : RunContext Json → E → Ended (IngestBundle V Raw) × E

-- The scheduler, the database and the state of the world.
pub record Node (Db E : Type 0) : Type 0 where
  pub sched : Scheduler
  pub data_base : Db
  pub env : E

abbrev pub resolved : ExecutionMode → Option TriggerType → TriggerType
resolved mode (some t) = t
resolved manual none = event
resolved _ none = scheduled

-- `run_id or new_run_id()`
abbrev pub chosen_id : {E : Type 0} → (E → String × E) → Option String → E → String × E
chosen_id new_run_id (some k) e = if str_eq k "" then new_run_id e else (k, e)
chosen_id new_run_id none e = new_run_id e

-- `if events is not None`
abbrev pub with_events :
    {V Raw : Type 0} → Option (List (MacroEvent V)) → IngestBundle V Raw → IngestBundle V Raw
with_events none b = b
with_events (some es) b = record b { events = es }

-- `lock.acquire(blocking=False)`
abbrev pub acquire : Scheduler → Option Scheduler
acquire s = if s.locked then none else some (record s { locked = true })

abbrev pub release : Scheduler → Scheduler
release s = record s { locked = false }

module _ {V Raw Json Db S E : Type 0} (db : Backend V Raw Json Db S)
    (outside : Outside V Raw Json E) (service : RunService)
    (providers : Providers V Raw Json E) where
  unfoldable pub ingest_and_run :
      Option (List (MacroEvent V))
      → RunContext Json
      → Db
      → Ended (IngestBundle V Raw) × E
      → Ended RunSummary × Db × E
  ingest_and_run events ctx d (raised x, e) = (raised x, d, e)
  ingest_and_run events ctx d (returned bundle, e) =
      execute db outside service ctx (with_events events bundle) d e

  abbrev pub with_previous :
      (Json → RunContext Json)
      → Option (List (MacroEvent V))
      → Db
      → Ended Json × E
      → Ended RunSummary × Db × E
  with_previous ctx events d (raised x, e) = (raised x, d, e)
  with_previous ctx events d (returned p, e) =
      ingest_and_run events (ctx p) d (providers.ingest (ctx p) e)

  -- `self._seq()`, and the scheduler afterwards.
  abbrev pub drawn : Scheduler → Ended ℕ × Db × E → Ended ℕ × Scheduler × Db × E
  drawn s (r, d, e) = (r, s, d, e)

  unfoldable pub draw : SequenceSource → Scheduler → Db → E → Ended ℕ × Scheduler × Db × E
  unfolding in_session next_sequence
  draw counted s d e = (returned (suc s.n), record s { n = suc s.n }, d, e)
  draw stored_runs s d e =
      drawn s (in_session db (λ w. (returned (next_sequence (db.tables w.0).runs), w.0, w.1)) d e)

  -- The body of `trigger` under the lock, from the sequence number on.
  unfoldable pub under_lock :
      ExecutionMode
      → Option TriggerType
      → Option TriggerDetail
      → Option (List (MacroEvent V))
      → String
      → ℕ
      → Db
      → E
      → Ended RunSummary × Db × E
  unfolding ingest_and_run
  under_lock mode trigger_type detail events chosen seq d e =
      let (now, e') = outside.clock e in
      let ctx : Json → RunContext Json = λ p. record {
        run_id = chosen;
        run_sequence = seq;
        trigger_type = resolved mode trigger_type;
        trigger_detail = detail;
        now = now;
        previous = p;
      } in
      with_previous ctx events d (providers.previous e')

  -- The `finally` of `trigger`.
  abbrev pub freed : Scheduler → Ended RunSummary × Db × E → Ended RunSummary × Node Db E
  freed s (r, d, e) = (r, record { sched = release s; data_base = d; env = e })

  abbrev pub run_drawn :
      ExecutionMode
      → Option TriggerType
      → Option TriggerDetail
      → Option (List (MacroEvent V))
      → String
      → Ended ℕ × Scheduler × Db × E
      → Ended RunSummary × Node Db E
  run_drawn mode trigger_type detail events chosen (raised x, s, d, e) = freed s (raised x, d, e)
  run_drawn mode trigger_type detail events chosen (returned seq, s, d, e) =
      freed s (under_lock mode trigger_type detail events chosen seq d e)

  abbrev pub run_locked :
      ExecutionMode
      → Option String
      → Option TriggerType
      → Option TriggerDetail
      → Option (List (MacroEvent V))
      → Node Db E
      → Option Scheduler
      → Ended RunSummary × Node Db E
  run_locked mode run_id trigger_type detail events node none = (raised "OverlapError", node)
  run_locked mode run_id trigger_type detail events node (some s) =
      let (chosen, e) = chosen_id providers.new_run_id run_id node.env in
      run_drawn mode trigger_type detail events chosen (draw providers.sequence s node.data_base e)

  -- `trigger`
  unfoldable pub trigger :
      ExecutionMode
      → Option String
      → Option TriggerType
      → Option TriggerDetail
      → Option (List (MacroEvent V))
      → Node Db E
      → Ended RunSummary × Node Db E
  unfolding under_lock draw
  trigger mode run_id trigger_type detail events node =
      run_locked mode run_id trigger_type detail events node (acquire node.sched)

  -- `run_event`
  unfoldable pub run_event :
      List (MacroEvent V) → String → ℕ → Node Db E → Ended RunSummary × Node Db E
  unfolding trigger
  run_event events event_id debounced_events =
      trigger manual none (some event)
        (some (record { event_id = some event_id; debounced_events = some debounced_events }))
        (some events)

  -- `run_scheduled`, `run_manual` and `run_replay`
  unfoldable pub run_scheduled : Node Db E → Ended RunSummary × Node Db E
  unfolding trigger
  run_scheduled = trigger scheduled_mode none none none none

  unfoldable pub run_manual : Option String → Node Db E → Ended RunSummary × Node Db E
  unfolding trigger
  run_manual run_id = trigger manual run_id none none none

  unfoldable pub run_replay :
      String → TriggerType → Option TriggerDetail → Node Db E → Ended RunSummary × Node Db E
  unfolding trigger
  run_replay run_id trigger_type detail =
      trigger replay_mode (some run_id) (some trigger_type) detail none
