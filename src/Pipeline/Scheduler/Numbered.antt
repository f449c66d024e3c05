-- ===== src/Pipeline/Scheduler/Numbered.antt =====
-- The sequence numbers of the runs that src/market_state_engine/pipeline/scheduler.py starts with the
-- numbers of app/container.py, and its lock.
use tread_agent.Base.{
  ℕ, ◌<◌, ◌≡◌, refl, ◌∙◌, ap, sym, subst, inl, inr, String, true, false, Option, List, [], ◌∷◌,
  ◌++◌, All, All-append, Bool-cases,
}
use tread_agent.Pipeline.Store.{
  TriggerType, MacroEvent, RunRow, IngestBundle, Tables, Ended, returned, raised, Backend,
  IsBackend, contents, in_session, Ended-cases,
}
use tread_agent.Pipeline.Runner.{
  Outside, RunService, RunSummary, RunContext, TriggerDetail, PipelineResult,
}
use tread_agent.Pipeline.Runner.Rows.{shown}
use tread_agent.Pipeline.Runner.Ids.{runs-story}
use tread_agent.Pipeline.Runner.Persist.{orchestrated}
use tread_agent.Pipeline.Runner.Story.{Ends, execute-Ends, again, completed, aborted, refused}
use tread_agent.Storage.Reads.{next_sequence}
use tread_agent.Storage.Reads.Pages.{below}
use tread_agent.Pipeline.Scheduler.{
  Providers, Node, ExecutionMode, Scheduler, stored_runs, trigger, run_drawn, draw, chosen_id,
  under_lock, with_previous, ingest_and_run,
}

-- Every run has a greater sequence number than the runs before it.
abbrev pub Increasing : List RunRow → Type 0
Increasing [] = Unit
Increasing (r ∷ rows) = All (λ (q : RunRow). r.run_sequence < q.run_sequence) rows × Increasing rows

abbrev Below : ℕ → List RunRow → Type 0
Below seq rows = All (λ (q : RunRow). q.run_sequence < seq) rows

Increasing-append :
    (rows : List RunRow) (r : RunRow)
    → Increasing rows
    → Below r.run_sequence rows
    → Increasing (rows ++ r ∷ [])
Increasing-append [] r i b = (tt, tt)
Increasing-append (q ∷ rows) r i b = (
  All-append (λ (p : RunRow). q.run_sequence < p.run_sequence) rows (r ∷ []) i.0 (b.0, tt),
  Increasing-append rows r i.1 b.1,
)

module _ {V Raw Json Db S E : Type 0} (db : Backend V Raw Json Db S) (law : IsBackend db)
    (outside : Outside V Raw Json E) (service : RunService)
    (stamped : (ctx : RunContext Json) (ingest : IngestBundle V Raw) (e : E)
        (result : PipelineResult V Json)
      → (orchestrated outside service ctx ingest e).0 ≡ returned result
      → result.run.run_sequence ≡ ctx.run_sequence) where
  abbrev runs_in : Db → List RunRow
  runs_in d = (contents db d).runs

  Ends-Increasing :
      (ctx : RunContext Json) (ingest : IngestBundle V Raw) (d : Db) (e : E)
      → Increasing (runs_in d)
      → Below ctx.run_sequence (runs_in d)
      → {r : Ended RunSummary} {d' : Db} → Ends db law outside service ctx ingest d e r d'
      → Increasing (runs_in d')
  Ends-Increasing ctx ingest d e i b (again d' known seen) =
      subst Increasing (sym (ap (λ (t : Tables V Raw Json). t.runs) seen)) i
  Ends-Increasing ctx ingest d e i b (completed d' result fresh told seen) =
      let (r, _, same, runs) =
        runs-story db law outside service ctx ingest (outside.clock e).0 result
          (orchestrated outside service ctx ingest e).1 (shown (contents db d)) in
      subst Increasing (sym (ap (λ (t : Tables V Raw Json). t.runs) seen ∙ runs)) (
        Increasing-append (runs_in d) r i
          (subst (λ k. Below k (runs_in d)) (sym (same ∙ stamped ctx ingest e result told)) b))
  Ends-Increasing ctx ingest d e i b (aborted x _ _) = i
  Ends-Increasing ctx ingest d e i b (refused x s _ _ _) = i

  module _ (providers : Providers V Raw Json E) (events : Option (List (MacroEvent V))) where
    ingest_and_run-Increasing :
        (ctx : RunContext Json) (d : Db) (i : Ended (IngestBundle V Raw) × E)
        → Increasing (runs_in d)
        → Below ctx.run_sequence (runs_in d)
        → Increasing (runs_in (ingest_and_run db outside service providers events ctx d i).1)
    unfolding ingest_and_run
    ingest_and_run-Increasing ctx d (raised x, e) i b = i
    ingest_and_run-Increasing ctx d (returned bundle, e) i b =
        Ends-Increasing ctx _ d e i b (execute-Ends db law outside service ctx _ d e)

    with_previous-Increasing :
        (seq : ℕ) (ctx : Json → RunContext Json) (d : Db) (p : Ended Json × E)
        → ((j : Json) → (ctx j).run_sequence ≡ seq)
        → Increasing (runs_in d)
        → Below seq (runs_in d)
        → Increasing (runs_in (with_previous db outside service providers ctx events d p).1)
    with_previous-Increasing seq ctx d (raised x, e) same i b = i
    with_previous-Increasing seq ctx d (returned j, e) same i b =
        ingest_and_run-Increasing (ctx j) d _ i (subst (λ k. Below k (runs_in d)) (sym (same j)) b)

    module _ (mode : ExecutionMode) (trigger_type : Option TriggerType)
        (detail : Option TriggerDetail) where
      under_lock-Increasing :
          (chosen : String) (seq : ℕ) (d : Db) (e : E)
          → Increasing (runs_in d)
          → Below seq (runs_in d)
          → Increasing (
              runs_in
                (under_lock db outside service providers mode trigger_type detail events chosen seq
                  d e).1)
      unfolding under_lock
      under_lock-Increasing chosen seq d e i b = with_previous-Increasing seq _ d _ (λ j. refl) i b

      -- A run under the lock, on the number that the stored runs give.
      drawn-Increasing :
          (chosen : String) (s : Scheduler) (d : Db) (e : E)
          → Increasing (runs_in d)
          → let (r, node) =
              run_drawn db outside service providers mode trigger_type detail events chosen
                (draw db outside service providers stored_runs s d e) in
            Increasing (runs_in node.data_base) × (node.sched ≡ record { locked = false; n = s.n })
      unfolding draw in_session
      drawn-Increasing chosen s d e i = elim (Ended-cases (db.commit (db.begin d))) [
        | inl (d', h) ↦
            let same : runs_in d' ≡ runs_in d =
              ap (λ (t : Tables V Raw Json). t.runs) (law.tables-commit (db.begin d) d' h) in
            rw h (
              under_lock-Increasing chosen (next_sequence (runs_in d)) d' e
                  (subst Increasing (sym same) i)
                  (subst (Below (next_sequence (runs_in d))) (sym same) (below (runs_in d))),
              refl,
            )
        | inr (x, h) ↦
            let same : runs_in (db.rollback (db.begin d)) ≡ runs_in d =
              ap runs_in (law.rollback-base (db.begin d) ∙ law.base-begin d) in
            rw h (subst Increasing (sym same) i, refl)
      ]

      -- With the numbers of the stored runs, and while the orchestrator stamps its result with the
      -- number of its context: if every stored run has a greater sequence number than those stored
      -- before it, this is so after a trigger, and the trigger leaves the scheduler's lock and counter
      -- as they were, whether it returns or raises. While the lock is held, it raises an OverlapError
      -- and changes nothing.
      pub trigger-Increasing :
          (run_id : Option String) (node : Node Db E)
          → providers.sequence ≡ stored_runs
          → Increasing (runs_in node.data_base)
          → let (r, node') =
              trigger db outside service providers mode run_id trigger_type detail events node in
            Increasing (runs_in node'.data_base)
            × (node'.sched ≡ node.sched)
            × (node.sched.locked ≡ true → (r ≡ raised "OverlapError") × (node' ≡ node))
      unfolding trigger
      trigger-Increasing run_id node source i = elim (Bool-cases node.sched.locked) [
        | inl busy ↦ rw busy (i, refl, (λ _. (refl, refl)))
        | inr free ↦
            let (chosen, e) = chosen_id providers.new_run_id run_id node.env in
            let held : Scheduler = record node.sched { locked = true } in
            let (kept, same) = drawn-Increasing chosen held node.data_base e i in
            rw (free, source) (kept, same, (λ busy. cc))
      ]
