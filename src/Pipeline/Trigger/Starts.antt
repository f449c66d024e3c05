-- ===== src/Pipeline/Trigger/Starts.antt =====
-- Submissions to src/market_state_engine/pipeline/event_trigger.py that start a run.
use tread_agent.Base.{
  ℕ, ◌-◌, ◌≡◌, refl, ◌∙◌, ap, sym, subst, Option, some, inl, inr, String, true, false, none, List,
  [], ◌∷◌, ◌++◌, length, any, All, select, is_some, str_eq, arith, Bool-cases,
}
use tread_agent.Base.Sort.{sort, insert_sorted}
use tread_agent.Pipeline.Store.{
  TriggerType, event, event_accepted, entered, MacroEvent, MacroEventRow, Tables, Ended, returned,
  raised, Backend, IsBackend, find_event,
}
use tread_agent.Pipeline.Runner.{Outside, RunService, TriggerDetail}
use tread_agent.Pipeline.Runner.Rows.{map-append}
use tread_agent.Pipeline.Scheduler.{
  Scheduler, ExecutionMode, Providers, Node, acquire, manual, chosen_id, draw, run_drawn, run_event,
  trigger,
}
use tread_agent.Pipeline.Trigger.Holds.{held}
use tread_agent.Pipeline.Trigger.{
  on_db, reading, note, add_if_absent, after_run, execute_pending, decide_run, admit_complete,
  accept, submit,
}
use tread_agent.Pipeline.Pending.{
  EventTriggerResult, surprise_of, ids_of, event_le, stored, waits, pending_of, last_triggered_of,
  is_cooling,
}
use tread_agent.Pipeline.Trigger.Kept.{taken_in, taken_in-quiet}
use tread_agent.Pipeline.Trigger.Pending.{select-Covered}
use tread_agent.Pipeline.Trigger.Debounce.{
  Refuses, and_do-ends, reading-Gave, note-Gave, stored-Gave, last_triggered-quiet,
}

insert_sorted-back :
    {V : Type 0} (P : MacroEvent V → Type 0) (e : MacroEvent V) (es : List (MacroEvent V))
    → All P (insert_sorted event_le e es)
    → P e × All P es
unfolding insert_sorted
insert_sorted-back P e [] a = (a.0, tt)
insert_sorted-back P e (x ∷ es) a = elim (Bool-cases (event_le e x)) [
  | inl h ↦ let b : All P (e ∷ x ∷ es) = rw h at a in b
  | inr h ↦
      let b : All P (x ∷ insert_sorted event_le e es) = rw h at a in
      let (p, rest) = insert_sorted-back P e es b.1 in (p, (b.0, rest))
]

sort-back :
    {V : Type 0} (P : MacroEvent V → Type 0) (es : List (MacroEvent V))
    → All P (sort event_le es)
    → All P es
unfolding sort
sort-back P [] a = tt
sort-back P (e ∷ es) a =
    let (p, rest) = insert_sorted-back P e (sort event_le es) a in (p, sort-back P es rest)

All-last :
    {V : Type 0} (P : MacroEvent V → Type 0) (es : List (MacroEvent V)) (e : MacroEvent V)
    → All P (es ++ e ∷ [])
    → P e
All-last P [] e a = a.0
All-last P (x ∷ es) e a = All-last P es e a.1

waits_complete :
    {V : Type 0} (taken : List String) (e : MacroEvent V)
    → waits taken e ≡ true
    → is_some e.actual ≡ true
unfolding waits
waits_complete taken e h = ground (arith, h)

module _ {V Raw Json : Type 0} where
  -- A complete event that is stored last and not yet triggered is pending.
  pending-last :
      (t : Tables V Raw Json) (es : List (MacroEvent V)) (e : MacroEvent V)
      → stored t.macro_events ≡ es ++ e ∷ []
      → waits (taken_in t.event_log) e ≡ true
      → any (str_eq e.event_id) (ids_of (pending_of t)) ≡ true
  unfolding pending_of taken_in
  pending-last t es e h w =
      let taken = taken_in t.event_log in
      let sorted = sort event_le (stored t.macro_events) in
      let P : MacroEvent V → Type 0 = λ x.
        waits taken x ≡ true
        → any (str_eq x.event_id) (ids_of (select (waits taken) sorted)) ≡ true in
      let all = sort-back P (stored t.macro_events) (select-Covered taken sorted) in
      All-last P es e (subst (All P) h all) w

module _ {V Raw Json Db S E : Type 0} (db : Backend V Raw Json Db S)
    (outside : Outside V Raw Json E) (service : RunService) (providers : Providers V Raw Json E)
    (minus : V → V → V) (cooldown : ℕ) where
  run_drawn-free :
      (mode : ExecutionMode) (trigger_type : Option TriggerType) (detail : Option TriggerDetail)
      (events : Option (List (MacroEvent V))) (chosen : String) (q : Ended ℕ × Scheduler × Db × E)
      → (run_drawn db outside service providers mode trigger_type detail events chosen
          q).1.sched.locked
        ≡ false
  run_drawn-free mode trigger_type detail events chosen (raised x, s, d, e) = refl
  run_drawn-free mode trigger_type detail events chosen (returned seq, s, d, e) = refl

  run_event-free :
      (es : List (MacroEvent V)) (event_id : String) (debounced : ℕ) (node : Node Db E)
      → node.sched.locked ≡ false
      → (run_event db outside service providers es event_id debounced node).1.sched.locked ≡ false
  unfolding run_event trigger
  run_event-free es event_id debounced node free =
      let (chosen, e) = chosen_id providers.new_run_id none node.env in
      rw free (
        run_drawn-free manual (some event)
          (some (record { event_id = some event_id; debounced_events = some debounced })) (some es)
          chosen
          (draw db outside service providers providers.sequence
            (record node.sched { locked = true }) node.data_base e))

  module _ (law : IsBackend db) where
    -- How a submission ends that has to start a run: with the outcome of a run of all that is pending,
    -- the event with it, which has taken the lock and has given it back, or before the run, where a
    -- commit of the database raises.
    pub data Begun (e : MacroEvent V) (s : Scheduler)
        : Ended (EventTriggerResult V) × Node Db E → Type 0 where
      runs :
          (p : MacroEvent V) (rest : List (MacroEvent V)) (n : Node Db E)
          → pending_of (held db law n) ≡ p ∷ rest
          → any (str_eq e.event_id) (ids_of (p ∷ rest)) ≡ true
          → acquire n.sched ≡ some (record s { locked = true })
          → (run_event db outside service providers
              (p ∷ rest)
              p.event_id
              (length (p ∷ rest) - 1)
              n).1.sched.locked
            ≡ false
          → Begun e s (
              after_run db outside service providers minus cooldown e p (p ∷ rest) (
                run_event db outside service providers
                  (p ∷ rest)
                  p.event_id
                  (length (p ∷ rest) - 1)
                  n))
      stopped : (x : String) (n : Node Db E) → n.sched ≡ s → Refuses db → Begun e s (raised x, n)

    -- With events pending, a run begins.
    execute_pending-Begun :
        (e : MacroEvent V) (ps : List (MacroEvent V)) (s : Scheduler) (node : Node Db E)
        → ps ≡ pending_of (held db law node)
        → any (str_eq e.event_id) (ids_of ps) ≡ true
        → node.sched ≡ s
        → s.locked ≡ false
        → Begun e s (execute_pending db outside service providers minus cooldown e ps node)
    unfolding execute_pending
    execute_pending-Begun e [] s node all h same free = cc
    execute_pending-Begun e (p ∷ rest) s node all h same free =
        let unlocked : node.sched.locked ≡ false = rw same free in
        runs p rest node (sym all) h (rw (same, free) refl)
          (run_event-free (p ∷ rest) p.event_id (length (p ∷ rest) - 1) node unlocked)

    -- What remains of a submission, once its event is stored, when nothing cools down.
    admit_complete-Begun :
        (e : MacroEvent V) (now : ℕ) (s : Scheduler) (node : Node Db E) (es : List (MacroEvent V))
        → stored (held db law node).macro_events ≡ es ++ e ∷ []
        → waits (taken_in (held db law node).event_log) e ≡ true
        → is_cooling cooldown now (last_triggered_of (held db law node)) ≡ false
        → node.sched ≡ s
        → s.locked ≡ false
        → Begun e s (admit_complete db outside service providers minus cooldown e now node)
    unfolding admit_complete decide_run
    admit_complete-Begun e now s node es last w warm same free =
        and_do-ends (Begun e s) (reading db pending_of node) _ (reading-Gave db law pending_of node)
          (λ ps n did.
            and_do-ends (Begun e s) (reading db last_triggered_of n) _
              (reading-Gave db law last_triggered_of n)
              (λ t n' did'.
                let still : is_cooling cooldown now t ≡ false =
                  ap (is_cooling cooldown now) (did'.0 ∙ ap last_triggered_of did.2) ∙ warm in
                rw still (
                  execute_pending-Begun e ps s n' (did.0 ∙ ap pending_of (sym (did'.2 ∙ did.2)))
                    (ap (λ qs. any (str_eq e.event_id) (ids_of qs)) did.0
                      ∙ pending-last (held db law node) es e last w)
                    (did'.1 ∙ (did.1 ∙ same)) free))
              (λ x n' l. stopped x n' (l.0 ∙ (did.1 ∙ same)) l.2))
          (λ x n l. stopped x n (l.0 ∙ same) l.2)

    -- A complete event that is new and has never been triggered, submitted when no trigger cools down
    -- and the scheduler is free, starts a run: the submission ends with the outcome of a run of all
    -- pending events, the new one among them, which has taken the lock and has given it back, unless a
    -- commit of the database raises before that run.
    pub submit_starts :
        (e : MacroEvent V) (raw : Json) (node : Node Db E)
        → find_event e.event_id (held db law node).macro_events ≡ none
        → waits (taken_in (held db law node).event_log) e ≡ true
        → is_cooling cooldown (outside.clock node.env).0 (last_triggered_of (held db law node))
          ≡ false
        → node.sched.locked ≡ false
        → Begun e node.sched (submit db outside service providers minus cooldown e raw node)
    unfolding submit accept
    submit_starts e raw node new w warm free =
        let (now, env) = outside.clock node.env in
        let node0 : Node Db E = record node { env = env } in
        let before = held db law node in
        let line = entered e.event_id e.event_type in
        and_do-ends (Begun e node.sched) (on_db db (add_if_absent db minus e raw now) node0) _
          (stored-Gave db law minus e raw now node0 new)
          (λ a n did.
            let row : MacroEventRow V Json = record {
              event = e;
              surprise = surprise_of minus e;
              raw = raw;
              ingested_at = now;
            } in
            subst
              (λ b.
                Begun e node.sched (accept db outside service providers minus cooldown e now b n))
              (sym did.0)
              (and_do-ends (Begun e node.sched) (note db outside event_accepted line none n) _
                (note-Gave db law outside event_accepted line n)
                (λ _ n' noted. rw (waits_complete (taken_in before.event_log) e w) (
                  admit_complete-Begun e now node.sched n' (stored before.macro_events)
                    (ap (λ (u : Tables V Raw Json). stored u.macro_events) noted.1
                      ∙ (ap (λ (u : Tables V Raw Json). stored u.macro_events) did.2
                          ∙ map-append (λ (r : MacroEventRow V Json). r.event) before.macro_events
                              (row ∷ [])))
                    (ap (λ (u : Tables V Raw Json). waits (taken_in u.event_log) e) noted.1
                      ∙ (ap (λ ids. waits ids e) (taken_in-quiet (held db law n).event_log _ refl)
                          ∙ (ap (λ (u : Tables V Raw Json). waits (taken_in u.event_log) e) did.2
                              ∙ w)))
                    (ap (λ u. is_cooling cooldown now (last_triggered_of u)) noted.1
                      ∙ (ap (is_cooling cooldown now) (
                            last_triggered-quiet event_accepted line (outside.clock n.env).0
                              (held db law n) refl)
                          ∙ (ap (λ u. is_cooling cooldown now (last_triggered_of u)) did.2 ∙ warm)))
                    (noted.0 ∙ did.1) free))
                (λ x n' l. stopped x n' (l.0 ∙ did.1) l.2)))
          (λ x n l. stopped x n l.0 l.2)
