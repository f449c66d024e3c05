-- ===== src/Pipeline/Trigger/Once.antt =====
-- src/market_state_engine/pipeline/event_trigger.py triggers every event at most once, and leaves
-- nothing pending when it has run.
use tread_agent.Base.{
  ℕ, ◌-◌, ◌≡◌, refl, ◌∙◌, ap, sym, subst, inl, inr, String, Bool, true, false, some, none, Option,
  List, [], ◌∷◌, ◌++◌, length, is_some, str_eq, Bool-cases, Option-cases,
}
use tread_agent.Pipeline.Store.{
  EventType, event_accepted, event_debounced, event_triggered, event_failed, Payload, entered,
  triggered, is_triggered, MacroEvent, MacroEventRow, macro_row, with_rows, Tables, Ended, returned,
  raised, Backend, IsBackend, find_event,
}
use tread_agent.Pipeline.Runner.{Outside, RunService, RunSummary}
use tread_agent.Pipeline.Runner.Rows.{shown, line, Wrote-add, Wrote-none}
use tread_agent.Pipeline.Scheduler.{Providers, Node, run_event}
use tread_agent.Pipeline.Trigger.{
  on_db, reading, note, add_if_absent, after_run, execute_pending, decide_run, admit_complete,
  accept, submit,
}
use tread_agent.Pipeline.Pending.{
  EventTriggerResult, result_of, surprise_of, ids_of, pending_of, last_triggered_of, is_cooling,
  and_do,
}
use tread_agent.Pipeline.Trigger.Holds.{
  Holds, Holds-weaker, Holds-then, held, Undone, on_db-Holds, reading-Holds, note-Holds,
}
use tread_agent.Pipeline.Trigger.Kept.{
  Kept, Kept-refl, Kept-pending, shown-Kept, taken_in, taken_in-append, taken_in-untimed,
}
use tread_agent.Pipeline.Trigger.Runs.{run_event-Kept}
use tread_agent.Pipeline.Trigger.Pending.{
  Once, Fired, Once-Kept, Fired-Once, Fired-none, stored-Once,
}

module _ {V Raw Json Db S E : Type 0} (db : Backend V Raw Json Db S) (law : IsBackend db)
    (outside : Outside V Raw Json E) (service : RunService) (providers : Providers V Raw Json E)
    (minus : V → V → V) (cooldown : ℕ) where
  abbrev now_held : Node Db E → Tables V Raw Json
  now_held node = held db law node

  abbrev Sound : Node Db E → Type 0
  Sound node = Once (now_held node)

  -- Of a result: when it has a run, nothing is pending.
  abbrev Served : EventTriggerResult V → Node Db E → Type 0
  Served r node = Sound node × (is_some r.run_id ≡ true → pending_of (now_held node) ≡ [])

  abbrev Waiting : List (MacroEvent V) → Node Db E → Type 0
  Waiting ps node = Sound node × (ps ≡ pending_of (now_held node))

  Kept-Sound : (n n' : Node Db E) → Kept (now_held n) (now_held n') → Sound n → Sound n'
  Kept-Sound n n' k o = Once-Kept (now_held n) (now_held n') k o

  Kept-Waiting :
      (ps : List (MacroEvent V)) (n n' : Node Db E)
      → Kept (now_held n) (now_held n')
      → Waiting ps n
      → Waiting ps n'
  Kept-Waiting ps n n' k w =
      (Kept-Sound n n' k w.0, w.1 ∙ sym (Kept-pending (now_held n) (now_held n') k))

  Undone-Kept : (n n' : Node Db E) → Undone db law n n' → Kept (now_held n) (now_held n')
  Undone-Kept n n' u = subst (Kept (now_held n)) (sym u) (Kept-refl (now_held n))

  -- A line that triggers nothing.
  note-Kept :
      (event_type : EventType) (payload : Payload) (run_id : Option String) (node : Node Db E)
      → is_triggered event_type ≡ false
      → Holds
          (λ _ n. Kept (now_held node) (now_held n))
          (λ n. Kept (now_held node) (now_held n))
          (note db outside event_type payload run_id node)
  note-Kept event_type payload run_id node h =
      Holds-weaker (note db outside event_type payload run_id node)
        (λ _ n did.
          shown-Kept (line run_id event_type payload ∷ []) (now_held node) (now_held n) did.1
            (h, tt))
        (λ n u. Undone-Kept node n u) (note-Holds db law outside event_type payload run_id node)

  reading-Kept :
      {A : Type 0} (f : Tables V Raw Json → A) (node : Node Db E)
      → Holds
          (λ a n. (a ≡ f (now_held node)) × Kept (now_held node) (now_held n))
          (λ n. Kept (now_held node) (now_held n))
          (reading db f node)
  reading-Kept f node =
      Holds-weaker (reading db f node)
        (λ a n did. (did.0, shown-Kept [] (now_held node) (now_held n) did.1 tt))
        (λ n u. Undone-Kept node n u) (reading-Holds db law f node)

  -- A line, and then a result without a run.
  note-Served :
      (event_type : EventType) (payload : Payload) (run_id : Option String)
      (r : EventTriggerResult V) (node : Node Db E)
      → is_triggered event_type ≡ false
      → is_some r.run_id ≡ false
      → Sound node
      → Holds Served Sound
          (and_do (note db outside event_type payload run_id node) (λ _ node'. (returned r, node')))
  note-Served event_type payload run_id r node h unrun o =
      Holds-then Served Sound (note db outside event_type payload run_id node) _
        (Holds-weaker (note db outside event_type payload run_id node)
          (λ _ n k. Kept-Sound node n k o) (λ n k. Kept-Sound node n k o)
          (note-Kept event_type payload run_id node h))
        (λ _ n o'. (o', (λ run. cc)))

  -- The line of a trigger.
  fire :
      (event_id status : String) (debounced : ℕ) (run_id : Option String) (ps : List (MacroEvent V))
      (n n' : Node Db E)
      → ps ≡ pending_of (now_held n)
      → shown (now_held n')
        ≡ with_rows
            (line run_id event_triggered (triggered event_id (ids_of ps) debounced status) ∷ [])
            (shown (now_held n))
      → Fired (now_held n) (now_held n')
  fire event_id status debounced run_id ps n n' h did = record {
    events = ap (λ (t : Tables V Raw Json). t.macro_events) did;
    taken =
        sym (taken_in-untimed (now_held n').event_log)
        ∙ (ap (λ (t : Tables V Raw Json). taken_in t.event_log) did
            ∙ (taken_in-append (shown (now_held n)).event_log _ refl
                ∙ (ap (λ ids. ids ++ ids_of ps) (taken_in-untimed (now_held n).event_log)
                    ∙ ap (λ qs. taken_in (now_held n).event_log ++ ids_of qs) h)));
  }

  after_run-Served :
      (e primary : MacroEvent V) (ps : List (MacroEvent V)) (m : Ended RunSummary × Node Db E)
      → Waiting ps m.1
      → Holds Served Sound (after_run db outside service providers minus cooldown e primary ps m)
  unfolding after_run
  after_run-Served e primary ps (returned summary, node) w =
      let payload = triggered primary.event_id (ids_of ps) (length ps - 1) summary.status in
      let m = note db outside event_triggered payload (some summary.run_id) node in
      Holds-then Served Sound m
        (λ _ n. (
          returned
              (result_of e (surprise_of minus e) false (some summary.run_id) (some summary.status)),
          n,
        ))
        (Holds-weaker m
          (λ _ n did.
            fire primary.event_id summary.status (length ps - 1) (some summary.run_id) ps node n w.1
              did.1)
          (λ n u. Kept-Sound node n (Undone-Kept node n u) w.0)
          (note-Holds db law outside event_triggered payload (some summary.run_id) node))
        (λ _ n f. (
          Fired-Once (now_held node) (now_held n) f w.0,
          (λ run. Fired-none (now_held node) (now_held n) f),
        ))
  after_run-Served e primary ps (raised x, node) w = elim (Bool-cases (str_eq x "OverlapError")) [
    | inl h ↦ rw h (note-Served event_debounced _ none _ node refl refl w.0)
    | inr h ↦ rw h (note-Served event_failed _ none _ node refl refl w.0)
  ]

  execute_pending-Served :
      (e : MacroEvent V) (ps : List (MacroEvent V)) (node : Node Db E)
      → Waiting ps node
      → Holds Served Sound (execute_pending db outside service providers minus cooldown e ps node)
  unfolding execute_pending
  execute_pending-Served e [] node w = (w.0, (λ run. cc))
  execute_pending-Served e (p ∷ rest) node w =
      let ran : Ended RunSummary × Node Db E =
        run_event db outside service providers (p ∷ rest) p.event_id (length (p ∷ rest) - 1) node in
      after_run-Served e p (p ∷ rest) ran (
        Kept-Waiting (p ∷ rest) node ran.1
          (run_event-Kept db law outside service providers (p ∷ rest) p.event_id
            (length (p ∷ rest) - 1) node)
          w)

  decide_run-Served :
      (e : MacroEvent V) (now : ℕ) (ps : List (MacroEvent V)) (last : Option ℕ) (node : Node Db E)
      → Waiting ps node
      → Holds Served Sound
          (decide_run db outside service providers minus cooldown e now ps last node)
  unfolding decide_run
  decide_run-Served e now ps last node w = elim (Bool-cases (is_cooling cooldown now last)) [
    | inl h ↦ rw h (note-Served event_debounced _ none _ node refl refl w.0)
    | inr h ↦ rw h (execute_pending-Served e ps node w)
  ]

  admit_complete-Served :
      (e : MacroEvent V) (now : ℕ) (node : Node Db E)
      → Sound node
      → Holds Served Sound (admit_complete db outside service providers minus cooldown e now node)
  unfolding admit_complete
  admit_complete-Served e now node o =
      Holds-then Served Sound (reading db pending_of node) _
        (Holds-weaker (reading db pending_of node)
          (λ ps n did. Kept-Waiting ps node n did.1 (o, did.0)) (λ n k. Kept-Sound node n k o)
          (reading-Kept pending_of node))
        (λ ps n w.
          Holds-then Served Sound (reading db last_triggered_of n) _
            (Holds-weaker (reading db last_triggered_of n)
              (λ _ n' did. Kept-Waiting ps n n' did.1 w) (λ n' k. Kept-Sound n n' k w.0)
              (reading-Kept last_triggered_of n))
            (λ last n' w'. decide_run-Served e now ps last n' w'))

  accept-Served :
      (e : MacroEvent V) (now : ℕ) (a : MacroEventRow V Json × Bool) (node : Node Db E)
      → Sound node
      → Holds Served Sound (accept db outside service providers minus cooldown e now a node)
  unfolding accept
  accept-Served e now (row, false) node o = (o, (λ run. cc))
  accept-Served e now (row, true) node o =
      let m = note db outside event_accepted (entered e.event_id e.event_type) none node in
      Holds-then Served Sound m _
        (Holds-weaker m (λ _ n k. Kept-Sound node n k o) (λ n k. Kept-Sound node n k o)
          (note-Kept event_accepted _ none node refl))
        (λ _ n o'. elim (Bool-cases (is_some e.actual)) [
          | inl h ↦ rw h (admit_complete-Served e now n o')
          | inr h ↦ rw h (o', (λ run. cc))
        ])

  add_if_absent-Sound :
      (e : MacroEvent V) (raw : Json) (now : ℕ) (node : Node Db E)
      → Sound node
      → Holds (λ _ n. Sound n) Sound (on_db db (add_if_absent db minus e raw now) node)
  unfolding add_if_absent
  add_if_absent-Sound e raw now node o =
      let body = add_if_absent db minus e raw now in
      let s : S = db.begin node.data_base in
      elim (Option-cases (find_event e.event_id (now_held node).macro_events)) [
        | inl new ↦
            let row : MacroEventRow V Json = record {
              event = e;
              surprise = surprise_of minus e;
              raw = raw;
              ingested_at = now;
            } in
            Holds-weaker (on_db db body node)
              (λ _ n did.
                stored-Once (now_held node) (now_held n) row new
                  (ap (λ (t : Tables V Raw Json). t.macro_events) did.1)
                  (sym (taken_in-untimed (now_held n).event_log)
                    ∙ (ap (λ (t : Tables V Raw Json). taken_in t.event_log) did.1
                        ∙ taken_in-untimed (now_held node).event_log))
                  o)
              (λ n u. Kept-Sound node n (Undone-Kept node n u) o)
              (on_db-Holds db law body (macro_row row ∷ []) (row, true) node
                (db.add (macro_row row) s) node.env (rw (new, add_if_absent) refl)
                (Wrote-add db law (macro_row row) s))
        | inr (row, h) ↦
            Holds-weaker (on_db db body node)
              (λ _ n did. Kept-Sound node n (shown-Kept [] (now_held node) (now_held n) did.1 tt) o)
              (λ n u. Kept-Sound node n (Undone-Kept node n u) o)
              (on_db-Holds db law body [] (row, false) node s node.env (rw (h, add_if_absent) refl)
                (Wrote-none db law s))
      ]

  -- A submission keeps each event stored at most once and triggered at most once, whatever it returns
  -- or raises, and when its result has a run, no complete event is left untriggered.
  pub submit-Served :
      (e : MacroEvent V) (raw : Json) (node : Node Db E)
      → Once (held db law node)
      → Holds
          (λ r n.
            Once (held db law n) × (is_some r.run_id ≡ true → pending_of (held db law n) ≡ []))
          (λ n. Once (held db law n))
          (submit db outside service providers minus cooldown e raw node)
  unfolding submit
  submit-Served e raw node o =
      let (now, env) = outside.clock node.env in
      let node' : Node Db E = record node { env = env } in
      Holds-then Served Sound (on_db db (add_if_absent db minus e raw now) node') _
        (add_if_absent-Sound e raw now node' o) (λ a n o'. accept-Served e now a n o')
