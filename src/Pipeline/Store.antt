-- ===== src/Pipeline/Store.antt =====
-- The rows and tables of src/market_state_engine/persistence (models.py, repositories.py) that the
-- pipeline uses, and `Database.session` (session.py), over an interface to SQLAlchemy.
use tread_agent.Base.{
  ℕ, ◌≡◌, refl, ◌⊎◌, inl, inr, String, Bool, true, false, Option, none, some, List, [], ◌∷◌, ◌++◌,
  any, select, str_eq, if◌then◌else◌,
}
use tread_agent.Reasoning.Types.{Outcome}
use tread_agent.Reasoning.Gateway.Attempt.{CallRecord}

-- core/enums.TriggerType
pub data TriggerType : Type 0 where
  scheduled event : TriggerType

-- pipeline/events.EventType
pub data EventType : Type 0 where
  run_start run_finish run_failure degraded provider_call replay scheduler : EventType
  event_accepted event_debounced event_triggered event_failed : EventType

-- core/enums.EventType
pub data MacroType : Type 0 where
  us_cpi fomc us_nfp : MacroType

-- The payloads that the pipeline records, by the keys that they have.
pub data Payload : Type 0 where
  idempotent_noop : Payload
  started : TriggerType → (run_sequence : ℕ) → Payload
  failure : (raised_name : String) → Payload
  called : (provider : String) → Outcome → Payload
  llm_absent : Payload
  finished : (status : String) → (published : Bool) → Payload
  entered : (event_id : String) → MacroType → Payload
  cooling : (event_id : String) → (pending_events : ℕ) → (cooldown_until : ℕ) → Payload
  run_overlap : (event_id : String) → (pending_events : ℕ) → Payload
  not_run : (event_id : String) → (event_ids : List String) → (raised_name : String) → Payload
  triggered :
      (event_id : String)
      → (event_ids : List String) → (debounced_events : ℕ) → (status : String) → Payload

-- core/dtos.MacroEvent, with the numbers of `V`; `scheduled_at` is compared as text.
pub record MacroEvent (V : Type 0) : Type 0 where
  pub event_id : String
  pub event_type : MacroType
  pub scheduled_at : String
  pub consensus : V
  pub actual : Option V

-- pipeline/orchestrator.IngestBundle. `snapshots` stands for the three maps of raw snapshots and the
-- news items, which the pipeline passes on as they are.
pub record IngestBundle (V Raw : Type 0) : Type 0 where
  pub snapshots : Raw
  pub events : List (MacroEvent V)

-- What the repositories read of the document of a run, and the rest of it.
pub record RuleActivation (V : Type 0) : Type 0 where
  pub rule_id : String
  pub strength : String
  pub horizon : String
  pub decay_remaining : V

pub record AssetDoc (V Json : Type 0) : Type 0 where
  pub symbol : String
  pub activated_rules : List (RuleActivation V)
  pub data_gaps : List Json

pub record RunDoc (V Json : Type 0) : Type 0 where
  pub run_id : String
  pub run_sequence : ℕ
  pub trigger_type : TriggerType
  pub is_degraded : Bool
  pub guardrail_flags : List Json
  pub assets : List (AssetDoc V Json)
  pub other : Json

pub record EventLogRow : Type 0 where
  pub run_id : Option String
  pub event_type : EventType
  pub payload : Payload
  pub created_at : ℕ

pub record RunRow : Type 0 where
  pub run_id : String
  pub run_sequence : ℕ
  pub trigger_type : TriggerType
  pub pipeline_version : String
  pub status : String
  pub is_degraded : Bool

pub record RunOutputRow (V Json : Type 0) : Type 0 where
  pub run_id : String
  pub market_state_run : RunDoc V Json
  pub guardrail_flags : List Json
  pub output_hash : String
  pub persisted_at : ℕ

pub record RunInputRow (V Raw Json : Type 0) : Type 0 where
  pub run_id : String
  pub raw_snapshots : IngestBundle V Raw
  pub snapshot_hash : String
  pub data_gaps : List (String × Json)
  pub deviation_flags : List Json
  pub ingested_at : ℕ

pub record CallRecordRow (V Json : Type 0) : Type 0 where
  pub call_id : String
  pub fields : CallRecord Json V

pub record RuleActivationRow (V : Type 0) : Type 0 where
  pub run_id : String
  pub symbol : String
  pub activation : RuleActivation V
  pub created_at : ℕ

pub record MacroEventRow (V Json : Type 0) : Type 0 where
  pub event : MacroEvent V
  pub surprise : Option V
  pub raw : Json
  pub ingested_at : ℕ

-- What the tables hold, each in the order of insertion.
pub record Tables (V Raw Json : Type 0) : Type 0 where
  pub runs : List RunRow
  pub run_outputs : List (RunOutputRow V Json)
  pub run_inputs : List (RunInputRow V Raw Json)
  pub call_records : List (CallRecordRow V Json)
  pub rule_activations : List (RuleActivationRow V)
  pub event_log : List EventLogRow
  pub macro_events : List (MacroEventRow V Json)

pub data Row (V Raw Json : Type 0) : Type 0 where
  run_row : RunRow → Row V Raw Json
  output_row : RunOutputRow V Json → Row V Raw Json
  input_row : RunInputRow V Raw Json → Row V Raw Json
  call_row : CallRecordRow V Json → Row V Raw Json
  activation_row : RuleActivationRow V → Row V Raw Json
  log_row : EventLogRow → Row V Raw Json
  macro_row : MacroEventRow V Json → Row V Raw Json

-- What a call of Python ends with: a value, or an exception, by its type's name.
pub data Ended (A : Type 0) : Type 0 where
  returned : A → Ended A
  raised : String → Ended A

pub Ended-cases :
    {A : Type 0} (o : Ended A) → ((a : A) × (o ≡ returned a)) ⊎ ((x : String) × (o ≡ raised x))
Ended-cases (returned a) = inl (a, refl)
Ended-cases (raised x) = inr (x, refl)

module _ {V Raw Json : Type 0} where
  -- A row at the end of its table.
  abbrev pub with_row : Row V Raw Json → Tables V Raw Json → Tables V Raw Json
  with_row (run_row r) t = record t { runs = t.runs ++ r ∷ [] }
  with_row (output_row r) t = record t { run_outputs = t.run_outputs ++ r ∷ [] }
  with_row (input_row r) t = record t { run_inputs = t.run_inputs ++ r ∷ [] }
  with_row (call_row r) t = record t { call_records = t.call_records ++ r ∷ [] }
  with_row (activation_row r) t = record t { rule_activations = t.rule_activations ++ r ∷ [] }
  with_row (log_row r) t = record t { event_log = t.event_log ++ r ∷ [] }
  with_row (macro_row r) t = record t { macro_events = t.macro_events ++ r ∷ [] }

  abbrev pub with_rows : List (Row V Raw Json) → Tables V Raw Json → Tables V Raw Json
  with_rows [] t = t
  with_rows (r ∷ rs) t = with_rows rs (with_row r t)

-- The parts of SQLAlchemy that the repositories use. `Db` is the database, `S` a session: `tables`
-- is what its queries read, its own pending rows included. A commit may raise.
pub record Backend (V Raw Json Db S : Type 0) : Type 0 where
  pub begin : Db → S
  pub commit : S → Ended Db
  pub rollback : S → Db
  pub add : Row V Raw Json → S → S
  pub tables : S → Tables V Raw Json

module _ {V Raw Json Db S : Type 0} (db : Backend V Raw Json Db S) where
  -- What a new session reads.
  abbrev pub contents : Db → Tables V Raw Json
  contents d = db.tables (db.begin d)

  -- The documented behaviour: a session reads the rows that it added, a commit that succeeds makes
  -- them the database's, and a rollback gives the database with which the session began.
  pub record IsBackend : Type 0 where
    pub base : S → Db
    pub tables-add :
        (r : Row V Raw Json) (s : S) → db.tables (db.add r s) ≡ with_row r (db.tables s)
    pub tables-commit : (s : S) (d : Db) → db.commit s ≡ returned d → contents d ≡ db.tables s
    pub base-begin : (d : Db) → base (db.begin d) ≡ d
    pub base-add : (r : Row V Raw Json) (s : S) → base (db.add r s) ≡ base s
    pub rollback-base : (s : S) → db.rollback s ≡ base s

  module _ {A E : Type 0} where
    abbrev pub close : A → S → E → Ended Db → Ended A × Db × E
    close a s e (returned d) = (returned a, d, e)
    close a s e (raised x) = (raised x, db.rollback s, e)

    abbrev pub leave : Ended A × S × E → Ended A × Db × E
    leave (returned a, s, e) = close a s e (db.commit s)
    leave (raised x, s, e) = (raised x, db.rollback s, e)

    -- `with Database.session() as session: body`
    unfoldable pub in_session : (S × E → Ended A × S × E) → Db → E → Ended A × Db × E
    in_session body d e = leave (body (db.begin d, e))

-- `RunRepository.exists`
unfoldable pub run_exists : String → List RunRow → Bool
run_exists run_id rows = any (λ (r : RunRow). str_eq r.run_id run_id) rows

-- `MacroEventRepository.get`
unfoldable pub find_event :
    {V Json : Type 0} → String → List (MacroEventRow V Json) → Option (MacroEventRow V Json)
find_event k [] = none
find_event k (r ∷ rs) = if str_eq r.event.event_id k then some r else find_event k rs

abbrev pub is_triggered : EventType → Bool
is_triggered event_triggered = true
is_triggered _ = false

-- `EventLogRepository.list_by_type(EVENT_TRIGGERED)`
unfoldable pub triggered_rows : List EventLogRow → List EventLogRow
triggered_rows = select (λ (r : EventLogRow). is_triggered r.event_type)
