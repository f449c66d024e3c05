-- ===== src/Pipeline/Runner/Ids.antt =====
-- The run ids of the table that src/market_state_engine/pipeline/runner.py writes stay distinct.
use tread_agent.Base.{
  ℕ, ◌≡◌, refl, ◌∙◌, ap, sym, subst, String, true, false, List, [], ◌∷◌, ◌++◌, All, All-append,
  str_eq, eq_iff, arith,
}
use tread_agent.Reasoning.Gateway.Attempt.{CallRecord}
use tread_agent.Pipeline.Store.{
  RunRow, Row, run_row, output_row, input_row, call_row, activation_row, log_row, macro_row,
  with_row, with_rows, Tables, IngestBundle, returned, Backend, IsBackend, contents, run_exists,
  Ended,
}
use tread_agent.Pipeline.Runner.{Outside, RunService, RunContext, PipelineResult, execute}
use tread_agent.Pipeline.Runner.Rows.{
  shown, activation_rows, call_rows, degraded_rows, activation_rows-All, call_rows-All,
  degraded_rows-All,
}
use tread_agent.Pipeline.Runner.Persist.{story, orchestrated}
use tread_agent.Pipeline.Runner.Story.{Ends, execute-Ends, again, completed, aborted, refused}

-- No run id stands twice.
abbrev pub DistinctIds : List RunRow → Type 0
DistinctIds [] = Unit
DistinctIds (r ∷ rows) = (run_exists r.run_id rows ≡ false) × DistinctIds rows

run_exists-append :
    (k : String) (rows : List RunRow) (r : RunRow)
    → run_exists k rows ≡ false
    → str_eq r.run_id k ≡ false
    → run_exists k (rows ++ r ∷ []) ≡ false
unfolding run_exists
run_exists-append k [] r h e = ground arith
run_exists-append k (q ∷ rows) r h e = ground (arith, run_exists-append k rows r)

distinct-append :
    (rows : List RunRow) (r : RunRow)
    → DistinctIds rows
    → run_exists r.run_id rows ≡ false
    → DistinctIds (rows ++ r ∷ [])
unfolding run_exists
distinct-append [] r d h = (refl, tt)
distinct-append (q ∷ rows) r d h = (
  run_exists-append q.run_id rows r d.0
      (ground (arith, eq_iff q.run_id r.run_id, eq_iff r.run_id q.run_id)),
  distinct-append rows r d.1 (ground arith),
)

module _ {V Raw Json : Type 0} where
  abbrev NoRun : Row V Raw Json → Type 0
  NoRun (run_row r) = false ≡ true
  NoRun _ = Unit

  runs-with_row :
      (r : Row V Raw Json) (t : Tables V Raw Json) → NoRun r → (with_row r t).runs ≡ t.runs
  runs-with_row (run_row r) t h = cc
  runs-with_row (output_row r) t h = refl
  runs-with_row (input_row r) t h = refl
  runs-with_row (call_row r) t h = refl
  runs-with_row (activation_row r) t h = refl
  runs-with_row (log_row r) t h = refl
  runs-with_row (macro_row r) t h = refl

  runs-with_rows :
      (rs : List (Row V Raw Json)) (t : Tables V Raw Json)
      → All NoRun rs
      → (with_rows rs t).runs ≡ t.runs
  runs-with_rows [] t h = refl
  runs-with_rows (r ∷ rs) t h = runs-with_rows rs (with_row r t) h.1 ∙ runs-with_row r t h.0

module _ {V Raw Json Db S E : Type 0} (db : Backend V Raw Json Db S) (law : IsBackend db)
    (outside : Outside V Raw Json E) (service : RunService) (ctx : RunContext Json)
    (ingest : IngestBundle V Raw) where
  -- After the first row behind the start, a story has no row of a run.
  pub runs-story :
      (now : ℕ) (result : PipelineResult V Json) (sink : List (CallRecord Json V))
      (t : Tables V Raw Json)
      → (r : RunRow) × (r.run_id ≡ result.run.run_id)
        × (r.run_sequence ≡ result.run.run_sequence)
        × ((with_rows (story outside service ctx ingest now result sink) t).runs ≡ t.runs ++ r ∷ [])
  runs-story now result sink t = (
    _,
    refl,
    refl,
    runs-with_rows _ _ (
        All-append NoRun (activation_rows ctx.run_id now result.run.assets) _
          (activation_rows-All NoRun (λ r. tt) ctx.run_id now result.run.assets)
          (All-append NoRun (call_rows ctx.run_id sink) _
            (call_rows-All NoRun (λ k p. tt) (λ r. tt) ctx.run_id sink)
            (All-append NoRun (degraded_rows ctx.run_id result.is_degraded) _
              (degraded_rows-All NoRun (λ k p. tt) ctx.run_id result.is_degraded) (tt, tt)))),
  )

  Ends-distinct :
      (d : Db) (e : E)
      → ((result : PipelineResult V Json)
          → (orchestrated outside service ctx ingest e).0 ≡ returned result
          → result.run.run_id ≡ ctx.run_id)
      → DistinctIds (contents db d).runs
      → {r : Ended _} {d' : Db} → Ends db law outside service ctx ingest d e r d'
      → DistinctIds (contents db d').runs
  Ends-distinct d e stamped h (again d' known seen) =
      subst DistinctIds (sym (ap (λ (t : Tables V Raw Json). t.runs) seen)) h
  Ends-distinct d e stamped h (completed d' result fresh told seen) =
      let (r, same, _, runs) =
        runs-story (outside.clock e).0 result (orchestrated outside service ctx ingest e).1
          (shown (contents db d)) in
      subst DistinctIds (sym (ap (λ (t : Tables V Raw Json). t.runs) seen ∙ runs))
        (distinct-append (contents db d).runs r h (rw (same, stamped result told) fresh))
  Ends-distinct d e stamped h (aborted x _ _) = h
  Ends-distinct d e stamped h (refused x s _ _ _) = h

  -- While the orchestrator stamps its result with the run id of its context, no run id stands twice in
  -- the table of runs after an execution, if none did before.
  pub execute-DistinctIds :
      (d : Db) (e : E)
      → ((result : PipelineResult V Json)
          → (orchestrated outside service ctx ingest e).0 ≡ returned result
          → result.run.run_id ≡ ctx.run_id)
      → DistinctIds (contents db d).runs
      → DistinctIds (contents db (execute db outside service ctx ingest d e).1).runs
  execute-DistinctIds d e stamped h =
      Ends-distinct d e stamped h (execute-Ends db law outside service ctx ingest d e)
