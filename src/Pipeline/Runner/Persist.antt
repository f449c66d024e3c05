-- ===== src/Pipeline/Runner/Persist.antt =====
-- The rows of a run that ends well in src/market_state_engine/pipeline/runner.py, in their order.
use tread_agent.Base.{ℕ, ◌≡◌, refl, String, true, false, some, List, [], ◌∷◌, ◌++◌}
use tread_agent.Reasoning.Gateway.Attempt.{CallRecord}
use tread_agent.Pipeline.Store.{
  run_finish, started, finished, IngestBundle, Row, run_row, output_row, input_row, RunDoc, Ended,
  returned, Backend, IsBackend,
}
use tread_agent.Pipeline.Runner.{
  Outside, RunService, RunContext, PipelineResult, RunSummary, status_of, collect_data_gaps,
  record_event, add_documents, add_calls, note_degraded, persist, start_event,
}
use tread_agent.Pipeline.Runner.Rows.{
  line, activation_rows, call_rows, degraded_rows, Wrote, Wrote-add, Wrote-then, record_event-Wrote,
  add_for_run-Wrote, add_calls-Wrote, note_degraded-Wrote,
}

abbrev pub summary_of : {V Json : Type 0} → RunContext Json → PipelineResult V Json → RunSummary
summary_of ctx result = record {
  run_id = ctx.run_id;
  status = status_of result.is_degraded;
  is_degraded = result.is_degraded;
  published = result.published;
  noop = false;
}

abbrev pub noop_summary : {Json : Type 0} → RunContext Json → RunSummary
noop_summary ctx = record {
  run_id = ctx.run_id;
  status = "exists";
  is_degraded = false;
  published = true;
  noop = true;
}

module _ {V Raw Json E : Type 0} (outside : Outside V Raw Json E) (service : RunService)
    (ctx : RunContext Json) (ingest : IngestBundle V Raw) where
  abbrev pub document_rows : ℕ → RunDoc V Json → String → List (Row V Raw Json)
  document_rows now doc status =
      run_row (record {
        run_id = doc.run_id;
        run_sequence = doc.run_sequence;
        trigger_type = doc.trigger_type;
        pipeline_version = service.pipeline_version;
        status = status;
        is_degraded = doc.is_degraded;
      })
      ∷ input_row (record {
        run_id = ctx.run_id;
        raw_snapshots = ingest;
        snapshot_hash = outside.hash_inputs ingest;
        data_gaps = collect_data_gaps doc.assets;
        deviation_flags = [];
        ingested_at = now;
      })
      ∷ output_row (record {
        run_id = doc.run_id;
        market_state_run = doc;
        guardrail_flags = doc.guardrail_flags;
        output_hash = outside.hash_output doc;
        persisted_at = now;
      })
      ∷ []

  abbrev pub closing_rows : PipelineResult V Json → List (CallRecord Json V) → List (Row V Raw Json)
  closing_rows result sink =
      call_rows ctx.run_id sink
      ++ (degraded_rows ctx.run_id result.is_degraded
          ++ line (some ctx.run_id) run_finish
              (finished (status_of result.is_degraded) result.published)
            ∷ [])

  -- The rows of a run that ends well, in their order.
  abbrev pub story : ℕ → PipelineResult V Json → List (CallRecord Json V) → List (Row V Raw Json)
  story now result sink =
      line (some ctx.run_id) (start_event service.replaying)
          (started ctx.trigger_type ctx.run_sequence)
        ∷ document_rows now result.run (status_of result.is_degraded)
      ++ (activation_rows ctx.run_id now result.run.assets ++ closing_rows result sink)

  -- The orchestrator's call, after the readings of the clock for `now` and for the first line.
  abbrev pub orchestrated : E → Ended (PipelineResult V Json) × List (CallRecord Json V) × E
  orchestrated e = outside.orchestrate ctx ingest (outside.clock (outside.clock e).1).1

module _ {V Raw Json Db S E : Type 0} (db : Backend V Raw Json Db S) (law : IsBackend db)
    (outside : Outside V Raw Json E) (service : RunService) (ctx : RunContext Json)
    (ingest : IngestBundle V Raw) where
  abbrev Written : List (Row V Raw Json) → S → S → Type 0
  Written rows s s' = Wrote db law rows s s'

  module _ (now : ℕ) where
    add_documents-Wrote :
        (doc : RunDoc V Json) (status : String) (s : S)
        → Written
            (document_rows outside service ctx ingest now doc status)
            s
            (add_documents db outside service ctx.run_id ingest doc status now s)
    unfolding add_documents
    add_documents-Wrote doc status s =
        Wrote-then db law (_ ∷ []) _ s _ _ (Wrote-add db law _ s)
          (Wrote-then db law (_ ∷ []) (_ ∷ []) _ _ _ (Wrote-add db law _ _) (Wrote-add db law _ _))

    closing-Wrote :
        (result : PipelineResult V Json) (sink : List (CallRecord Json V)) (s : S) (e : E)
        → Written
            (closing_rows outside service ctx ingest result sink)
            s
            (record_event db outside run_finish
              (finished (status_of result.is_degraded) result.published)
              (some ctx.run_id)
              (note_degraded db outside result.is_degraded ctx.run_id
                (add_calls db outside ctx.run_id sink (s, e)))).0
    closing-Wrote result sink s e =
        let (s', e') = add_calls db outside ctx.run_id sink (s, e) in
        Wrote-then db law (call_rows ctx.run_id sink) _ s _ _
          (add_calls-Wrote db law outside ctx.run_id sink s e)
          (Wrote-then db law (degraded_rows ctx.run_id result.is_degraded) _ _ _ _
            (note_degraded-Wrote db law outside result.is_degraded ctx.run_id _ _)
            (record_event-Wrote db law outside run_finish _ (some ctx.run_id) _ _))

    pub persist-Wrote :
        (result : PipelineResult V Json) (sink : List (CallRecord Json V)) (s : S) (e : E)
        → let (r, s', _) = persist db outside service ctx ingest now result sink (s, e) in
          (r ≡ returned (summary_of ctx result))
          × Written
              (document_rows outside service ctx ingest now result.run
                  (status_of result.is_degraded)
                ++ (activation_rows ctx.run_id now result.run.assets
                    ++ closing_rows outside service ctx ingest result sink))
              s
              s'
    unfolding persist
    persist-Wrote result sink s e = (
      refl,
      Wrote-then db law
          (document_rows outside service ctx ingest now result.run (status_of result.is_degraded)) _
          s _ _ (add_documents-Wrote result.run (status_of result.is_degraded) s)
          (Wrote-then db law (activation_rows ctx.run_id now result.run.assets) _ _ _ _
            (add_for_run-Wrote db law outside ctx.run_id now result.run.assets _)
            (closing-Wrote result sink _ e)),
    )
