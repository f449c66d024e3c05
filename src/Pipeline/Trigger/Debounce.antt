-- ===== src/Pipeline/Trigger/Debounce.antt =====
-- Submissions to src/market_state_engine/pipeline/event_trigger.py during a cool-down, and what the
-- sessions of a submission give.
use tread_agent.Base.{
  ℕ, ◌+◌, ◌<◌, ◌≡◌, refl, ◌∙◌, ap, sym, subst, inl, inr, String, true, false, some, none, List, [],
  ◌∷◌, ◌++◌, length, is_some, lt→ltb, select-append, append-nil,
}
use tread_agent.Pipeline.Store.{
  EventType, event_accepted, event_debounced, Payload, entered, cooling, is_triggered,
  triggered_rows, EventLogRow, MacroEvent, MacroEventRow, Row, macro_row, log_row, with_row, Tables,
  Ended, returned, raised, Ended-cases, Backend, IsBackend, contents, find_event, in_session,
}
use tread_agent.Pipeline.Runner.{Outside, RunService, record_event}
use tread_agent.Pipeline.Runner.Rows.{map-append}
use tread_agent.Pipeline.Scheduler.{Scheduler, Providers, Node}
use tread_agent.Pipeline.Trigger.{
  on_db, reading, note, add_if_absent, decide_run, admit_complete, accept, submit,
}
use tread_agent.Pipeline.Pending.{
  EventTriggerResult, and_do, created_at_of, last_row, stored, result_of, surprise_of, pending_of,
  last_triggered_of,
}
use tread_agent.Pipeline.Trigger.Holds.{Holds, Holds-weaker, held}

pub triggered_rows-quiet :
    (rows : List EventLogRow) (r : EventLogRow)
    → is_triggered r.event_type ≡ false
    → triggered_rows (rows ++ r ∷ []) ≡ triggered_rows rows
unfolding triggered_rows
triggered_rows-quiet rows r h =
    select-append (λ (q : EventLogRow). is_triggered q.event_type) rows (r ∷ [])
    ∙ rw h (append-nil (triggered_rows rows))

module _ {V Raw Json : Type 0} where
  abbrev pub stamped : EventType → Payload → ℕ → Row V Raw Json
  stamped event_type payload t =
      log_row (record { run_id = none; event_type = event_type; payload = payload; created_at = t })

  pub last_triggered-quiet :
      (event_type : EventType) (payload : Payload) (now : ℕ) (t : Tables V Raw Json)
      → is_triggered event_type ≡ false
      → last_triggered_of (with_row (stamped event_type payload now) t) ≡ last_triggered_of t
  unfolding last_triggered_of
  last_triggered-quiet event_type payload now t h =
      ap (λ rows. created_at_of (last_row rows)) (triggered_rows-quiet t.event_log _ h)

module _ {A B Db E : Type 0} where
  -- After a sequence: what the rest gives, or the raise of the first call.
  pub and_do-ends :
      {P : A → Node Db E → Type 0} {I : Node Db E → Type 0} (Q : Ended B × Node Db E → Type 0)
      (m : Ended A × Node Db E) (k : A → Node Db E → Ended B × Node Db E)
      → Holds P I m
      → ((a : A) (n : Node Db E) → P a n → Q (k a n))
      → ((x : String) (n : Node Db E) → I n → Q (raised x, n))
      → Q (and_do m k)
  and_do-ends Q (returned a, n) k h f g = f a n h
  and_do-ends Q (raised x, n) k h f g = g x n h

-- A commit of the database raises.
abbrev pub Refuses : {V Raw Json Db S : Type 0} → Backend V Raw Json Db S → Type 0
Refuses {S} db = (s : S) × (x : String) × (db.commit s ≡ raised x)

module _ {V Raw Json Db S E : Type 0} (db : Backend V Raw Json Db S) (law : IsBackend db) where
  -- A session that leaves the scheduler as it is, returns `a` and gives the tables `t`.
  abbrev pub Gave : {A : Type 0} → A → Tables V Raw Json → Node Db E → A → Node Db E → Type 0
  Gave a t node a' node' = (a' ≡ a) × (node'.sched ≡ node.sched) × (held db law node' ≡ t)

  -- A session that a commit has refused.
  abbrev pub Left : Node Db E → Node Db E → Type 0
  Left node node' = (node'.sched ≡ node.sched) × (held db law node' ≡ held db law node) × Refuses db

  pub on_db-Gave :
      {A : Type 0} (body : S × E → Ended A × S × E) (a : A) (node : Node Db E) (s : S) (e : E)
      → body (db.begin node.data_base, node.env) ≡ (returned a, s, e)
      → law.base s ≡ law.base (db.begin node.data_base)
      → Holds (Gave a (db.tables s) node) (Left node) (on_db db body node)
  unfolding on_db in_session
  on_db-Gave body a node s e ran same = elim (Ended-cases (db.commit s)) [
    | inl (d, h) ↦ rw (ran, h) (refl, refl, law.tables-commit s d h)
    | inr (x, h) ↦
        rw (ran, h)
          (
            refl,
            ap (contents db) (law.rollback-base s ∙ (same ∙ law.base-begin node.data_base)),
            (s, x, h),
          )
  ]

  pub reading-Gave :
      {A : Type 0} (f : Tables V Raw Json → A) (node : Node Db E)
      → Holds (Gave (f (held db law node)) (held db law node) node) (Left node) (reading db f node)
  reading-Gave f node =
      on_db-Gave _ (f (held db law node)) node (db.begin node.data_base) node.env refl refl

  pub note-Gave :
      (outside : Outside V Raw Json E) (event_type : EventType) (payload : Payload)
      (node : Node Db E)
      → Holds
          (λ _ n.
            (n.sched ≡ node.sched)
            × (held db law n
                ≡ with_row
                    (stamped event_type payload (outside.clock node.env).0)
                    (held db law node)))
          (Left node)
          (note db outside event_type payload none node)
  unfolding note record_event
  note-Gave outside event_type payload node =
      let (t, e) = outside.clock node.env in
      let row : Row V Raw Json = stamped event_type payload t in
      Holds-weaker (note db outside event_type payload none node)
        (λ _ n did. (did.1, did.2 ∙ law.tables-add row (db.begin node.data_base))) (λ n l. l)
        (on_db-Gave
          (λ w.
            let (s', e') = record_event db outside event_type payload none w in
            (returned tt, s', e'))
          tt node (db.add row (db.begin node.data_base)) e refl
          (law.base-add row (db.begin node.data_base)))

  -- The first session of a submission, of an event that is not stored.
  pub stored-Gave :
      (minus : V → V → V) (e : MacroEvent V) (raw : Json) (now : ℕ) (node : Node Db E)
      → find_event e.event_id (held db law node).macro_events ≡ none
      → let row : MacroEventRow V Json = record {
        event = e;
        surprise = surprise_of minus e;
        raw = raw;
        ingested_at = now;
      } in
        Holds
          (Gave (row, true) (with_row (macro_row row) (held db law node)) node)
          (Left node)
          (on_db db (add_if_absent db minus e raw now) node)
  unfolding add_if_absent
  stored-Gave minus e raw now node new =
      let row : MacroEventRow V Json = record {
        event = e;
        surprise = surprise_of minus e;
        raw = raw;
        ingested_at = now;
      } in
      let body = add_if_absent db minus e raw now in
      Holds-weaker (on_db db body node)
        (λ _ n did.
          (did.0, did.1, did.2 ∙ law.tables-add (macro_row row) (db.begin node.data_base)))
        (λ n l. l)
        (on_db-Gave body (row, true) node (db.add (macro_row row) (db.begin node.data_base))
          node.env (rw (new, add_if_absent) refl)
          (law.base-add (macro_row row) (db.begin node.data_base)))

  module _ (outside : Outside V Raw Json E) (service : RunService)
      (providers : Providers V Raw Json E) (minus : V → V → V) (cooldown : ℕ) where
    -- The event is debounced: `t` are the tables before it.
    abbrev pub Debounced :
        MacroEvent V
        → Tables V Raw Json
        → Scheduler
        → ℕ
        → Ended (EventTriggerResult V) × Node Db E
        → Type 0
    Debounced e t s last =
        Holds
          (λ r n.
            (r ≡ result_of e (surprise_of minus e) true none none)
            × (stored (held db law n).macro_events ≡ stored t.macro_events ++ e ∷ [])
            × (last_triggered_of (held db law n) ≡ some last)
            × (n.sched ≡ s))
          (λ n. (last_triggered_of (held db law n) ≡ some last) × (n.sched ≡ s) × Refuses db)

    -- The last part of a submission, while the last trigger cools down.
    decide_run-Debounced :
        (e : MacroEvent V) (now : ℕ) (ps : List (MacroEvent V)) (t : Tables V Raw Json)
        (s : Scheduler) (last : ℕ) (node : Node Db E)
        → stored (held db law node).macro_events ≡ stored t.macro_events ++ e ∷ []
        → last_triggered_of (held db law node) ≡ some last
        → node.sched ≡ s
        → now < last + cooldown
        → Debounced e t s last
            (decide_run db outside service providers minus cooldown e now ps (some last) node)
    unfolding decide_run
    decide_run-Debounced e now ps t s last node has was same early =
        let payload = cooling e.event_id (length ps) (last + cooldown) in
        rw (lt→ltb now (last + cooldown) early) (
          and_do-ends (Debounced e t s last) (note db outside event_debounced payload none node) _
            (note-Gave outside event_debounced payload node)
            (λ _ n did. (
              refl,
              ap (λ (u : Tables V Raw Json). stored u.macro_events) did.1 ∙ has,
              ap last_triggered_of did.1
                  ∙ (last_triggered-quiet event_debounced payload (outside.clock node.env).0
                        (held db law node) refl
                      ∙ was),
              did.0 ∙ same,
            ))
            (λ x n l. (ap last_triggered_of l.1 ∙ was, l.0 ∙ same, l.2)))

    admit_complete-Debounced :
        (e : MacroEvent V) (now : ℕ) (t : Tables V Raw Json) (s : Scheduler) (last : ℕ)
        (node : Node Db E)
        → stored (held db law node).macro_events ≡ stored t.macro_events ++ e ∷ []
        → last_triggered_of (held db law node) ≡ some last
        → node.sched ≡ s
        → now < last + cooldown
        → Debounced e t s last
            (admit_complete db outside service providers minus cooldown e now node)
    unfolding admit_complete
    admit_complete-Debounced e now t s last node has was same early =
        and_do-ends (Debounced e t s last) (reading db pending_of node) _
          (reading-Gave pending_of node)
          (λ ps n did.
            let was' : last_triggered_of (held db law n) ≡ some last =
              ap last_triggered_of did.2 ∙ was in
            and_do-ends (Debounced e t s last) (reading db last_triggered_of n) _
              (reading-Gave last_triggered_of n)
              (λ l n' did'.
                subst
                  (λ q.
                    Debounced e t s last
                      (decide_run db outside service providers minus cooldown e now ps q n'))
                  (sym (did'.0 ∙ was'))
                  (decide_run-Debounced e now ps t s last n'
                    (ap (λ (u : Tables V Raw Json). stored u.macro_events) (did'.2 ∙ did.2) ∙ has)
                    (ap last_triggered_of did'.2 ∙ was') (did'.1 ∙ (did.1 ∙ same)) early))
              (λ x n' l. (ap last_triggered_of l.1 ∙ was', l.0 ∙ (did.1 ∙ same), l.2)))
          (λ x n l. (ap last_triggered_of l.1 ∙ was, l.0 ∙ same, l.2))

    -- A complete event that is new, submitted before the cool-down of the last trigger has passed: a
    -- submission that returns has stored the event and reports it as debounced, and one that raises
    -- does so where a commit of the database raises. In both cases no run is started, and the last
    -- trigger stays the last.
    pub submit_cooling :
        (e : MacroEvent V) (raw : Json) (node : Node Db E) (last : ℕ)
        → find_event e.event_id (held db law node).macro_events ≡ none
        → is_some e.actual ≡ true
        → last_triggered_of (held db law node) ≡ some last
        → (outside.clock node.env).0 < last + cooldown
        → Debounced e
            (held db law node)
            node.sched
            last
            (submit db outside service providers minus cooldown e raw node)
    unfolding submit accept
    submit_cooling e raw node last new complete was early =
        let (now, env) = outside.clock node.env in
        let node0 : Node Db E = record node { env = env } in
        let before = held db law node in
        let Q : Ended (EventTriggerResult V) × Node Db E → Type 0 =
          Debounced e before node.sched last in
        let line = entered e.event_id e.event_type in
        and_do-ends Q (on_db db (add_if_absent db minus e raw now) node0) _
          (stored-Gave minus e raw now node0 new)
          (λ a n did.
            let row : MacroEventRow V Json = record {
              event = e;
              surprise = surprise_of minus e;
              raw = raw;
              ingested_at = now;
            } in
            subst (λ b. Q (accept db outside service providers minus cooldown e now b n))
              (sym did.0)
              (and_do-ends Q (note db outside event_accepted line none n) _
                (note-Gave outside event_accepted line n)
                (λ _ n' noted. rw complete (
                  admit_complete-Debounced e now before node.sched last n'
                    (ap (λ (u : Tables V Raw Json). stored u.macro_events) (noted.1)
                      ∙ (ap (λ (u : Tables V Raw Json). stored u.macro_events) did.2
                          ∙ map-append (λ (r : MacroEventRow V Json). r.event) before.macro_events
                              (row ∷ [])))
                    (ap last_triggered_of noted.1
                      ∙ (last_triggered-quiet event_accepted line (outside.clock n.env).0
                            (held db law n) refl
                          ∙ (ap last_triggered_of did.2 ∙ was)))
                    (noted.0 ∙ did.1) early))
                (λ x n' l. (
                  ap last_triggered_of l.1 ∙ (ap last_triggered_of did.2 ∙ was),
                  l.0 ∙ did.1,
                  l.2,
                ))))
          (λ x n l. (ap last_triggered_of l.1 ∙ was, l.0, l.2))
