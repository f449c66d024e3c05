-- ===== src/Pipeline/Trigger/Runs.antt =====
-- A run of src/market_state_engine/pipeline/scheduler.py, however it ends, keeps the macro events and
-- the triggered ones as they are.
use tread_agent.Base.{
  ℕ, ◌≡◌, refl, ◌∙◌, ap, subst, inl, inr, String, Option, none, some, List, [], ◌∷◌,
}
use tread_agent.Pipeline.Store.{
  event, scheduler, idempotent_noop, TriggerType, MacroEvent, IngestBundle, Ended, returned, raised,
  Backend, IsBackend, contents, in_session, Ended-cases,
}
use tread_agent.Pipeline.Runner.{Outside, RunService, RunSummary, RunContext, TriggerDetail}
use tread_agent.Pipeline.Runner.Rows.{line}
use tread_agent.Pipeline.Runner.Persist.{story, orchestrated}
use tread_agent.Pipeline.Runner.Story.{Ends, execute-Ends, again, completed, aborted, refused}
use tread_agent.Pipeline.Scheduler.{
  Providers, Node, ExecutionMode, manual, Scheduler, trigger, run_event, run_locked, under_lock,
  with_previous, ingest_and_run, acquire, run_drawn, draw, chosen_id, SequenceSource, counted,
  stored_runs,
}
use tread_agent.Pipeline.Trigger.Kept.{Kept, Kept-refl, shown-Kept, story-Quiet}
use tread_agent.Pipeline.Trigger.Holds.{held}

module _ {V Raw Json Db S E : Type 0} (db : Backend V Raw Json Db S) (law : IsBackend db)
    (outside : Outside V Raw Json E) (service : RunService) where
  Ends-Kept :
      (ctx : RunContext Json) (ingest : IngestBundle V Raw) (d : Db) (e : E) {r : Ended RunSummary}
      {d' : Db}
      → Ends db law outside service ctx ingest d e r d'
      → Kept (contents db d) (contents db d')
  Ends-Kept ctx ingest d e (again d' _ seen) =
      shown-Kept (line (some ctx.run_id) scheduler idempotent_noop ∷ []) _ _ seen (refl, tt)
  Ends-Kept ctx ingest d e (completed d' result _ _ seen) =
      shown-Kept
        (story outside service ctx ingest (outside.clock e).0 result
          (orchestrated outside service ctx ingest e).1)
        _ _ seen
        (story-Quiet outside service ctx ingest (outside.clock e).0 result
          (orchestrated outside service ctx ingest e).1)
  Ends-Kept ctx ingest d e (aborted x _ _) = Kept-refl (contents db d)
  Ends-Kept ctx ingest d e (refused x s _ _ _) = Kept-refl (contents db d)

  module _ (providers : Providers V Raw Json E) (events : Option (List (MacroEvent V))) where
    draw-contents :
        (source : SequenceSource) (s : Scheduler) (d : Db) (e : E)
        → contents db (draw db outside service providers source s d e).2 ≡ contents db d
    unfolding draw in_session
    draw-contents counted s d e = refl
    draw-contents stored_runs s d e = elim (Ended-cases (db.commit (db.begin d))) [
      | inl (d', h) ↦ rw h (law.tables-commit (db.begin d) d' h)
      | inr (x, h) ↦ rw h (ap (contents db) (law.rollback-base (db.begin d) ∙ law.base-begin d))
    ]

    ingest_and_run-Kept :
        (ctx : RunContext Json) (d : Db) (i : Ended (IngestBundle V Raw) × E)
        → Kept
            (contents db d)
            (contents db (ingest_and_run db outside service providers events ctx d i).1)
    unfolding ingest_and_run
    ingest_and_run-Kept ctx d (raised x, e) = Kept-refl (contents db d)
    ingest_and_run-Kept ctx d (returned bundle, e) =
        Ends-Kept ctx _ d e (execute-Ends db law outside service ctx _ d e)

    with_previous-Kept :
        (ctx : Json → RunContext Json) (d : Db) (p : Ended Json × E)
        → Kept
            (contents db d)
            (contents db (with_previous db outside service providers ctx events d p).1)
    with_previous-Kept ctx d (raised x, e) = Kept-refl (contents db d)
    with_previous-Kept ctx d (returned p, e) = ingest_and_run-Kept (ctx p) d _

    module _ (mode : ExecutionMode) (run_id : Option String) (trigger_type : Option TriggerType)
        (detail : Option TriggerDetail) where
      under_lock-Kept :
          (chosen : String) (seq : ℕ) (d : Db) (e : E)
          → Kept (contents db d) (
              contents db
                (under_lock db outside service providers mode trigger_type detail events chosen seq
                  d e).1)
      unfolding under_lock
      under_lock-Kept chosen seq d e = with_previous-Kept _ d _

      run_drawn-Kept :
          (chosen : String) (q : Ended ℕ × Scheduler × Db × E)
          → Kept (contents db q.2) (
              contents db
                (run_drawn db outside service providers mode trigger_type detail events chosen
                  q).1.data_base)
      run_drawn-Kept chosen (raised x, s, d, e) = Kept-refl (contents db d)
      run_drawn-Kept chosen (returned seq, s, d, e) = under_lock-Kept chosen seq d e

      run_locked-Kept :
          (node : Node Db E) (lock : Option Scheduler)
          → Kept (contents db node.data_base) (
              contents db
                (run_locked db outside service providers mode run_id trigger_type detail events node
                  lock).1.data_base)
      run_locked-Kept node none = Kept-refl (contents db node.data_base)
      run_locked-Kept node (some s) =
          let (chosen, e) = chosen_id providers.new_run_id run_id node.env in
          let q = draw db outside service providers providers.sequence s node.data_base e in
          subst
            (λ t. Kept t (
              contents db
                (run_drawn db outside service providers mode trigger_type detail events chosen
                  q).1.data_base))
            (draw-contents providers.sequence s node.data_base e) (run_drawn-Kept chosen q)

      pub trigger-Kept :
          (node : Node Db E)
          → Kept (held db law node) (
              held db law
                (trigger db outside service providers mode run_id trigger_type detail events
                  node).1)
      unfolding trigger
      trigger-Kept node = run_locked-Kept node (acquire node.sched)

  pub run_event-Kept :
      (providers : Providers V Raw Json E) (events : List (MacroEvent V)) (event_id : String)
      (debounced : ℕ) (node : Node Db E)
      → Kept
          (held db law node)
          (held db law (run_event db outside service providers events event_id debounced node).1)
  unfolding run_event
  run_event-Kept providers events event_id debounced node =
      trigger-Kept providers (some events) manual none (some event)
        (some (record { event_id = some event_id; debounced_events = some debounced })) node
