-- ===== src/Pipeline/Runner/Story.antt =====
-- What an execution of src/market_state_engine/pipeline/runner.py leaves in the database, however it
-- ends.
use tread_agent.Base.{
  ◌≡◌, refl, ◌∙◌, ap, ◌⊎◌, inl, inr, String, true, false, some, List, [], ◌∷◌, Bool-cases,
}
use tread_agent.Reasoning.Gateway.Attempt.{CallRecord}
use tread_agent.Pipeline.Store.{
  run_failure, Ended-cases, scheduler, idempotent_noop, started, failure, IngestBundle, Row,
  with_row, with_rows, Ended, returned, raised, Backend, IsBackend, contents, leave, in_session,
  run_exists,
}
use tread_agent.Pipeline.Runner.{
  Outside, RunService, RunContext, PipelineResult, RunSummary, record_event, persist, conclude_run,
  start_event, attempt_run, skip_run, run_body, execute,
}
use tread_agent.Pipeline.Runner.Rows.{shown, line, Wrote, Wrote-then, record_event-Wrote}
use tread_agent.Pipeline.Runner.Persist.{
  summary_of, noop_summary, story, orchestrated, persist-Wrote,
}

module _ {V Raw Json Db S E : Type 0} (db : Backend V Raw Json Db S) (law : IsBackend db)
    (outside : Outside V Raw Json E) (service : RunService) (ctx : RunContext Json)
    (ingest : IngestBundle V Raw) where
  abbrev Written : List (Row V Raw Json) → S → S → Type 0
  Written rows s s' = Wrote db law rows s s'

  -- Something is to be committed.
  abbrev Answers : Db → E → Type 0
  Answers d e =
      (run_exists ctx.run_id (contents db d).runs ≡ true)
      ⊎ ((result : PipelineResult V Json) × ((orchestrated outside service ctx ingest e).0
            ≡ returned result))

  -- How an execution ends, by what it returns or raises and the database that it leaves. The time
  -- that it writes is the clock's first reading.
  pub data Ends (d : Db) (e : E) : Ended RunSummary → Db → Type 0 where
    -- The run is known: nothing is added but a line.
    again :
        (d' : Db)
        → run_exists ctx.run_id (contents db d).runs ≡ true
        → shown (contents db d')
          ≡ with_row (line (some ctx.run_id) scheduler idempotent_noop) (shown (contents db d))
        → Ends d e (returned (noop_summary ctx)) d'
    -- The orchestrator gives a result.
    completed :
        (d' : Db) (result : PipelineResult V Json)
        → run_exists ctx.run_id (contents db d).runs ≡ false
        → (orchestrated outside service ctx ingest e).0 ≡ returned result
        → shown (contents db d')
          ≡ with_rows
              (story outside service ctx ingest
                (outside.clock e).0
                result
                (orchestrated outside service ctx ingest e).1)
              (shown (contents db d))
        → Ends d e (returned (summary_of ctx result)) d'
    -- The orchestrator raises.
    aborted :
        (x : String)
        → run_exists ctx.run_id (contents db d).runs ≡ false
        → (orchestrated outside service ctx ingest e).0 ≡ raised x
        → Ends d e (raised x) d
    -- The commit raises.
    refused :
        (x : String) (s : S)
        → Answers d e
        → law.base s ≡ d
        → db.commit s ≡ raised x
        → Ends d e (raised x) d

  module _ (d : Db) (e : E) where
    leave_base : (s : S) → law.base s ≡ law.base (db.begin d) → db.rollback s ≡ d
    leave_base s same = law.rollback-base s ∙ (same ∙ law.base-begin d)

    leave-Ends :
        (a : RunSummary) (s : S) (e' : E) (rows : List (Row V Raw Json))
        → Written rows (db.begin d) s
        → Answers d e
        → ((d' : Db)
            → shown (contents db d') ≡ with_rows rows (shown (contents db d))
            → Ends d e (returned a) d')
        → let (r, d', _) = leave db (returned a, s, e') in Ends d e r d'
    leave-Ends a s e' rows w ans good = elim (Ended-cases (db.commit s)) [
      | inl (d', h) ↦ rw h (good d' (ap shown (law.tables-commit s d' h) ∙ w.told))
      | inr (x, h) ↦ rw (h, leave_base s w.same) (refused x s ans (w.same ∙ law.base-begin d) h)
    ]

    abbrev begun : S
    begun =
        (record_event db outside (start_event service.replaying)
          (started ctx.trigger_type ctx.run_sequence) (some ctx.run_id)
          (db.begin d, (outside.clock e).1)).0

    begun-Wrote :
        Written
          (line
              (some ctx.run_id)
              (start_event service.replaying)
              (started ctx.trigger_type ctx.run_sequence)
            ∷ [])
          (db.begin d)
          begun
    begun-Wrote = record_event-Wrote db law outside _ _ _ (db.begin d) (outside.clock e).1

    conclude_run-Ends :
        (o : Ended (PipelineResult V Json) × List (CallRecord Json V) × E)
        → run_exists ctx.run_id (contents db d).runs ≡ false
        → orchestrated outside service ctx ingest e ≡ o
        → let (r, d', _) =
            leave db (conclude_run db outside service ctx ingest (outside.clock e).0 begun o) in
          Ends d e r d'
    unfolding conclude_run persist
    conclude_run-Ends (returned result, sink, e') fresh h =
        let (told, w) =
          persist-Wrote db law outside service ctx ingest (outside.clock e).0 result sink begun
            e' in
        let rest =
          persist db outside service ctx ingest (outside.clock e).0 result sink (begun, e') in
        leave-Ends (summary_of ctx result) rest.1 rest.2 _
          (Wrote-then db law (_ ∷ []) _ _ _ _ begun-Wrote w) (inr (result, ap (λ o. o.0) h))
          (λ d' seen. completed d' result fresh (ap (λ o. o.0) h) (rw (ap (λ o. o.1) h) seen))
    conclude_run-Ends (raised x, sink, e') fresh h =
        let (s', e'') =
          record_event db outside run_failure (failure x) (some ctx.run_id) (begun, e') in
        rw
          (leave_base s' (
            (record_event-Wrote db law outside run_failure (failure x) (some ctx.run_id) begun
              e').same
            ∙ begun-Wrote.same))
          (aborted x fresh (ap (λ o. o.0) h))

    attempt_run-Ends :
        run_exists ctx.run_id (contents db d).runs ≡ false
        → let (r, d', _) = leave db (
            attempt_run db outside service ctx ingest
              (outside.clock e).0
              (db.begin d, (outside.clock e).1)) in
          Ends d e r d'
    unfolding attempt_run record_event
    attempt_run-Ends fresh =
        conclude_run-Ends (orchestrated outside service ctx ingest e) fresh refl

    skip_run-Ends :
        run_exists ctx.run_id (contents db d).runs ≡ true
        → let (r, d', _) = leave db (
            skip_run db outside service ctx ingest
              (outside.clock e).0
              (db.begin d, (outside.clock e).1)) in
          Ends d e r d'
    unfolding skip_run
    skip_run-Ends known =
        leave-Ends (noop_summary ctx) _ _ (_ ∷ [])
          (record_event-Wrote db law outside scheduler idempotent_noop (some ctx.run_id)
            (db.begin d) (outside.clock e).1)
          (inl known) (λ d' seen. again d' known seen)

    -- However an execution ends, it ends as one of these four: on a known run id it only adds a line
    -- to the log; after the orchestrator's result the tables have its whole story, in order; and when
    -- the orchestrator or the commit raises, it raises the same and leaves the database as it was.
    pub execute-Ends : let (r, d', _) = execute db outside service ctx ingest d e in Ends d e r d'
    unfolding execute run_body in_session
    execute-Ends = elim (Bool-cases (run_exists ctx.run_id (contents db d).runs)) [
      | inl known ↦ rw known (skip_run-Ends known)
      | inr fresh ↦ rw fresh (attempt_run-Ends fresh)
    ]
