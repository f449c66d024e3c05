-- ===== src/Pipeline/Runner.antt =====
-- src/market_state_engine/pipeline/runner.py (`RunService`) and events.py (`EventRecorder`). The
-- orchestrator, the clock, the ULIDs and the hashes are parameters; `E` is the state of the world
-- that they change.
pub mod Rows
pub mod Persist
pub mod Story
pub mod Ids
use tread_agent.Base.{ℕ, String, Bool, true, false, Option, some, List, [], ◌∷◌, ◌++◌, map}
use tread_agent.Reasoning.Gateway.Attempt.{CallRecord}
use tread_agent.Pipeline.Store.{
  TriggerType, EventType, run_start, run_finish, run_failure, degraded, provider_call, replay,
  scheduler, Payload, idempotent_noop, started, failure, called, llm_absent, finished,
  RuleActivation, AssetDoc, RunDoc, IngestBundle, Row, run_row, output_row, input_row, call_row,
  activation_row, log_row, Ended, returned, raised, Backend, in_session, run_exists,
}

pub record TriggerDetail : Type 0 where
  pub event_id : Option String
  pub debounced_events : Option ℕ

-- core/run_context.RunContext. `previous` stands for the previous regime and the versions.
pub record RunContext (Json : Type 0) : Type 0 where
  pub run_id : String
  pub run_sequence : ℕ
  pub trigger_type : TriggerType
  pub trigger_detail : Option TriggerDetail
  pub now : ℕ
  pub previous : Json

pub record PipelineResult (V Json : Type 0) : Type 0 where
  pub run : RunDoc V Json
  pub is_degraded : Bool
  pub published : Bool

pub record RunSummary : Type 0 where
  pub run_id : String
  pub status : String
  pub is_degraded : Bool
  pub published : Bool
  pub noop : Bool

-- `orchestrate` is `PipelineOrchestrator.run`, with the call records that its gateway puts into the
-- sink; `execute` clears the sink before it.
pub record Outside (V Raw Json E : Type 0) : Type 0 where
  pub clock : E → ℕ × E
  pub ulid : E → String × E
  pub hash_inputs : IngestBundle V Raw → String
  pub hash_output : RunDoc V Json → String
  pub orchestrate :
      RunContext Json
      → IngestBundle V Raw
      → E
      → Ended (PipelineResult V Json) × List (CallRecord Json V) × E

pub record RunService : Type 0 where
  pub pipeline_version : String
  pub replaying : Bool

-- `_collect_data_gaps`
unfoldable pub collect_data_gaps : {V Json : Type 0} → List (AssetDoc V Json) → List (String × Json)
collect_data_gaps [] = []
collect_data_gaps (a ∷ rest) = map (λ gap. (a.symbol, gap)) a.data_gaps ++ collect_data_gaps rest

abbrev pub status_of : Bool → String
status_of true = "degraded"
status_of false = "published"

abbrev pub start_event : Bool → EventType
start_event true = replay
start_event false = run_start

module _ {V Raw Json Db S E : Type 0} (db : Backend V Raw Json Db S)
    (outside : Outside V Raw Json E) where
  -- `EventRecorder.record`; the structured log is not modelled.
  unfoldable pub record_event : EventType → Payload → Option String → S × E → S × E
  record_event event_type payload run_id (s, e) =
      let (now, e') = outside.clock e in
      (
        db.add
            (log_row (record {
              run_id = run_id;
              event_type = event_type;
              payload = payload;
              created_at = now;
            }))
            s,
        e',
      )

  -- `RuleActivationRepository.add_for_run`
  unfoldable pub add_activations : String → String → ℕ → List (RuleActivation V) → S → S
  add_activations run_id symbol now [] s = s
  add_activations run_id symbol now (a ∷ rest) s = add_activations run_id symbol now rest (
      db.add
        (activation_row
          (record { run_id = run_id; symbol = symbol; activation = a; created_at = now }))
        s)

  unfoldable pub add_for_run : String → ℕ → List (AssetDoc V Json) → S → S
  unfolding add_activations
  add_for_run run_id now [] s = s
  add_for_run run_id now (a ∷ rest) s =
      add_for_run run_id now rest (add_activations run_id a.symbol now a.activated_rules s)

  -- The loop over the sink.
  unfoldable pub add_calls : String → List (CallRecord Json V) → S × E → S × E
  unfolding record_event
  add_calls run_id [] w = w
  add_calls run_id (r ∷ rs) w =
      let (s, e) = record_event provider_call (called r.provider r.outcome) (some run_id) w in
      let (call_id, e') = outside.ulid e in
      add_calls run_id rs (db.add (call_row (record { call_id = call_id; fields = r })) s, e')

  -- `add_run`, `add_inputs` and `add_output`
  unfoldable pub add_documents :
      RunService → String → IngestBundle V Raw → RunDoc V Json → String → ℕ → S → S
  unfolding collect_data_gaps
  add_documents service run_id ingest doc status now s =
      let s1 =
        db.add
          (run_row (record {
            run_id = doc.run_id;
            run_sequence = doc.run_sequence;
            trigger_type = doc.trigger_type;
            pipeline_version = service.pipeline_version;
            status = status;
            is_degraded = doc.is_degraded;
          }))
          s in
      let s2 =
        db.add
          (input_row (record {
            run_id = run_id;
            raw_snapshots = ingest;
            snapshot_hash = outside.hash_inputs ingest;
            data_gaps = collect_data_gaps doc.assets;
            deviation_flags = [];
            ingested_at = now;
          }))
          s1 in
      db.add
        (output_row (record {
          run_id = doc.run_id;
          market_state_run = doc;
          guardrail_flags = doc.guardrail_flags;
          output_hash = outside.hash_output doc;
          persisted_at = now;
        }))
        s2

  abbrev pub note_degraded : Bool → String → S × E → S × E
  note_degraded true run_id w = record_event degraded llm_absent (some run_id) w
  note_degraded false run_id w = w

  module _ (service : RunService) (ctx : RunContext Json) (ingest : IngestBundle V Raw)
      (now : ℕ) where
    -- The part of `execute` after the orchestrator has returned.
    unfoldable pub persist :
        PipelineResult V Json → List (CallRecord Json V) → S × E → Ended RunSummary × S × E
    unfolding add_documents add_for_run add_calls record_event
    persist result sink (s, e) =
        let status = status_of result.is_degraded in
        let s1 = add_documents service ctx.run_id ingest result.run status now s in
        let s2 = add_for_run ctx.run_id now result.run.assets s1 in
        let w1 = add_calls ctx.run_id sink (s2, e) in
        let w2 = note_degraded result.is_degraded ctx.run_id w1 in
        let (s4, e4) =
          record_event run_finish (finished status result.published) (some ctx.run_id) w2 in
        (
          returned (record {
            run_id = ctx.run_id;
            status = status;
            is_degraded = result.is_degraded;
            published = result.published;
            noop = false;
          }),
          s4,
          e4,
        )

    -- `except Exception`: the failure is recorded in the session, and raised again.
    unfoldable pub conclude_run :
        S → Ended (PipelineResult V Json) × List (CallRecord Json V) × E → Ended RunSummary × S × E
    unfolding persist record_event
    conclude_run s (returned result, sink, e) = persist result sink (s, e)
    conclude_run s (raised x, sink, e) =
        let (s', e') = record_event run_failure (failure x) (some ctx.run_id) (s, e) in
        (raised x, s', e')

    unfoldable pub attempt_run : S × E → Ended RunSummary × S × E
    unfolding conclude_run record_event
    attempt_run w =
        let (s, e) =
          record_event (start_event service.replaying) (started ctx.trigger_type ctx.run_sequence)
            (some ctx.run_id) w in
        conclude_run s (outside.orchestrate ctx ingest e)

    unfoldable pub skip_run : S × E → Ended RunSummary × S × E
    unfolding record_event
    skip_run w =
        let (s, e) = record_event scheduler idempotent_noop (some ctx.run_id) w in
        (
          returned (record {
            run_id = ctx.run_id;
            status = "exists";
            is_degraded = false;
            published = true;
            noop = true;
          }),
          s,
          e,
        )

    abbrev pub admit : Bool → S × E → Ended RunSummary × S × E
    admit true w = skip_run w
    admit false w = attempt_run w

    -- The body of the session.
    unfoldable pub run_body : S × E → Ended RunSummary × S × E
    unfolding attempt_run skip_run run_exists
    run_body (s, e) = admit (run_exists ctx.run_id (db.tables s).runs) (s, e)

  -- `RunService.execute`
  unfoldable pub execute :
      RunService → RunContext Json → IngestBundle V Raw → Db → E → Ended RunSummary × Db × E
  unfolding run_body in_session
  execute service ctx ingest d e =
      let (now, e') = outside.clock e in in_session db (run_body service ctx ingest now) d e'
