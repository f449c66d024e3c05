-- ===== src/Pipeline/Samples/Events.antt =====
-- Macro events submitted to a database of lists.
use tread_agent.Base.{
  ℕ, ◌-◌, ◌≡◌, refl, String, true, false, none, some, [], ◌∷◌, map, arith, is_some,
}
use tread_agent.Base.Sort.{sort}
use tread_agent.Pipeline.Store.{
  contents, us_cpi, event_accepted, event_triggered, event_debounced, run_start, run_finish,
  provider_call, degraded, EventLogRow, RunRow, scheduled, raised, run_exists, MacroEvent,
  triggered, find_event, returned, triggered_rows,
}
use tread_agent.Pipeline.Runner.{execute, collect_data_gaps}
use tread_agent.Pipeline.Scheduler.{Providers, Node, stored_runs, scheduled_mode, trigger}
use tread_agent.Pipeline.Scheduler.Numbered.{Increasing, trigger-Increasing}
use tread_agent.Storage.Reads.{next_sequence}
use tread_agent.Pipeline.Trigger.{submit}
use tread_agent.Pipeline.Pending.{
  is_cooling, result_of, pending_of, last_triggered_of, waits, ids_of,
}
use tread_agent.Pipeline.Trigger.Holds.{Holds, held}
use tread_agent.Pipeline.Trigger.Kept.{taken_in}
use tread_agent.Pipeline.Trigger.Pending.{Once}
use tread_agent.Pipeline.Trigger.Once.{submit-Served}
use tread_agent.Pipeline.Trigger.Starts.{Begun, submit_starts}
use tread_agent.Pipeline.Trigger.Debounce.{Debounced, submit_cooling}
use tread_agent.Pipeline.Samples.{
  Rows, lists, lists-IsBackend, numbered, blank, outside, service, good,
}

abbrev providers : Providers ℕ String String ℕ
providers = record {
  new_run_id = λ e. ("r1", e);
  sequence = stored_runs;
  previous = λ e. (returned "", e);
  ingest = λ ctx e. (returned good, e);
}

abbrev cpi : MacroEvent ℕ
cpi = record {
  event_id = "cpi-1";
  event_type = us_cpi;
  scheduled_at = "2026-01-01T13:30Z";
  consensus = 3;
  actual = some 5;
}

abbrev next_cpi : MacroEvent ℕ
next_cpi = record cpi { event_id = "cpi-2" }

abbrev minus : ℕ → ℕ → ℕ
minus a b = a - b

abbrev fresh : Node Rows ℕ
fresh = record { sched = record { locked = false; n = 0 }; data_base = blank; env = 0 }

-- The first event runs, the second falls into the cool-down.
two_submitted :
    let (r, n) = submit lists outside service providers minus 100 cpi "raw" fresh in
    let (q, m) = submit lists outside service providers minus 100 next_cpi "raw" n in
    (r
      ≡ returned (record {
        event_id = "cpi-1";
        accepted = true;
        surprise = some 2;
        debounced = false;
        run_id = some "r1";
        run_status = some "degraded";
      }))
    × (q ≡ returned (result_of next_cpi (some 2) true none none))
    × (map (λ (l : EventLogRow). l.event_type) m.data_base.event_log
        ≡ event_accepted ∷ run_start ∷ provider_call ∷ degraded ∷ run_finish ∷ event_triggered
          ∷ event_accepted ∷ event_debounced ∷ [])
    × (ids_of (pending_of m.data_base) ≡ "cpi-2" ∷ [])
unfolding submit execute collect_data_gaps find_event sort triggered_rows waits
two_submitted = (refl, refl, refl, refl)

blank-Once : Once (held lists lists-IsBackend fresh)
unfolding taken_in triggered_rows
blank-Once = record { distinct = λ k. omega arith; once = λ k. omega arith }

submit-Served_example :
    Holds
      (λ r n.
        Once (held lists lists-IsBackend n)
        × (is_some r.run_id ≡ true → pending_of (held lists lists-IsBackend n) ≡ []))
      (λ n. Once (held lists lists-IsBackend n))
      (submit lists outside service providers minus 100 cpi "raw" fresh)
submit-Served_example =
    submit-Served lists lists-IsBackend outside service providers minus 100 cpi "raw" fresh
      blank-Once

-- A database in which `cpi` has run at the time 40.
abbrev ran_before : Node Rows ℕ
ran_before = record {
  sched = record { locked = false; n = 1 };
  data_base = record blank {
    macro_events = record { event = cpi; surprise = some 2; raw = "raw"; ingested_at = 30 } ∷ [];
    event_log =
        record {
          run_id = some "r0";
          event_type = event_triggered;
          payload = triggered "cpi-1" ("cpi-1" ∷ []) 0 "published";
          created_at = 40;
        }
        ∷ [];
  };
  env = 50;
}

new_cpi : find_event "cpi-2" ran_before.data_base.macro_events ≡ none
unfolding find_event
new_cpi = refl

ran_at : last_triggered_of ran_before.data_base ≡ some 40
unfolding last_triggered_of triggered_rows
ran_at = refl

submit_cooling_example :
    Debounced lists lists-IsBackend outside service providers minus 100 next_cpi
      (held lists lists-IsBackend ran_before)
      ran_before.sched
      40
      (submit lists outside service providers minus 100 next_cpi "raw" ran_before)
submit_cooling_example =
    submit_cooling lists lists-IsBackend outside service providers minus 100 next_cpi "raw"
      ran_before 40 new_cpi refl ran_at (omega arith)

cpi_new : find_event "cpi-1" blank.macro_events ≡ none
unfolding find_event
cpi_new = refl

cpi-waits : waits (taken_in blank.event_log) cpi ≡ true
unfolding waits taken_in triggered_rows
cpi-waits = refl

blank_warm : is_cooling 100 0 (last_triggered_of blank) ≡ false
unfolding last_triggered_of triggered_rows
blank_warm = refl

submit_starts_example :
    Begun lists outside service providers minus 100 lists-IsBackend cpi fresh.sched
      (submit lists outside service providers minus 100 cpi "raw" fresh)
submit_starts_example =
    submit_starts lists outside service providers minus 100 lists-IsBackend cpi "raw" fresh cpi_new
      cpi-waits blank_warm refl

abbrev earlier : String → ℕ → RunRow
earlier run_id sequence = record {
  run_id = run_id;
  run_sequence = sequence;
  trigger_type = scheduled;
  pipeline_version = "1.2.0";
  status = "published";
  is_degraded = false;
}

-- Two runs are stored, with a gap between their numbers.
abbrev ran_twice : Node Rows ℕ
ran_twice = record fresh { data_base = record blank { runs = earlier "a" 2 ∷ earlier "b" 5 ∷ [] } }

trigger-Increasing_example :
    let (r, n) =
      trigger lists outside service providers scheduled_mode none none none none ran_twice in
    Increasing (contents lists n.data_base).runs
    × (n.sched ≡ ran_twice.sched)
    × (ran_twice.sched.locked ≡ true → (r ≡ raised "OverlapError") × (n ≡ ran_twice))
trigger-Increasing_example =
    trigger-Increasing lists lists-IsBackend outside service numbered providers none scheduled_mode
      none none none ran_twice refl (((omega arith), tt), (tt, tt))

-- The third run is stored with the number after the greatest one.
third :
    let (r, n) =
      trigger lists outside service providers scheduled_mode none none none none ran_twice in
    map (λ (q : RunRow). q.run_sequence) n.data_base.runs ≡ 2 ∷ 5 ∷ 6 ∷ []
unfolding trigger execute collect_data_gaps next_sequence run_exists
third = refl
