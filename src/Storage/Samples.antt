-- ===== src/Storage/Samples.antt =====
-- Small tables.
use mathlib.Core.List.Permᴰ
use tread_agent.Storage.Reads.Unordered.{list_runs_unordered}
use tread_agent.Base.{
  String-cases, subst, inl, inr, ℕ, ◌≡◌, refl, String, true, false, Option, none, some, List, [],
  ◌∷◌, Some, select, not,
}
use tread_agent.Pipeline.Store.{TriggerType, scheduled, event, RunRow, RunOutputRow}
use tread_agent.Storage.Reads.{list_runs, ordered_ids, get_output}
use tread_agent.Storage.Keyed.{
  RawSnapshot, TotalMcapSample, get_snapshot, record_and_list, same_key,
}
use tread_agent.Storage.Keyed.Newest.{record_all, GivesNewest, get_snapshot-GivesNewest}
use tread_agent.Storage.Keyed.History.{IsRecent, record_and_list-IsRecent}

abbrev run : String → ℕ → TriggerType → RunRow
run run_id sequence t = record {
  run_id = run_id;
  run_sequence = sequence;
  trigger_type = t;
  pipeline_version = "1.2.0";
  status = "published";
  is_degraded = false;
}

abbrev output : String → ℕ → ℕ → TriggerType → RunOutputRow ℕ String
output run_id sequence persisted_at t = record {
  run_id = run_id;
  market_state_run = record {
    run_id = run_id;
    run_sequence = sequence;
    trigger_type = t;
    is_degraded = false;
    guardrail_flags = [];
    assets = [];
    other = "";
  };
  guardrail_flags = [];
  output_hash = "";
  persisted_at = persisted_at;
}

abbrev runs : List RunRow
runs = run "a" 1 scheduled ∷ run "b" 2 event ∷ run "c" 3 scheduled ∷ []

-- b and c are persisted at the same instant.
abbrev outputs : List (RunOutputRow ℕ String)
outputs = output "a" 1 10 scheduled ∷ output "b" 2 20 event ∷ output "c" 3 20 scheduled ∷ []

latest_first : ordered_ids none outputs runs ≡ "c" ∷ "b" ∷ "a" ∷ []
unfolding ordered_ids
latest_first = refl

of_events : ordered_ids (some event) outputs runs ≡ "b" ∷ []
unfolding ordered_ids
of_events = refl

-- The rows of both tables in another order.
abbrev outputs_back : List (RunOutputRow ℕ String)
outputs_back = output "b" 2 20 event ∷ output "a" 1 10 scheduled ∷ output "c" 3 20 scheduled ∷ []

same_outputs : (k : String) → get_output k outputs ≡ get_output k outputs_back
unfolding get_output
same_outputs k = elim (String-cases "a" k) [
  | inl (e, p) ↦ subst (λ j. get_output j outputs ≡ get_output j outputs_back) p refl
  | inr (e, n) ↦ rw e refl
]

list_runs_unordered_example : list_runs none 2 0 outputs runs ≡ list_runs none 2 0 outputs_back runs
list_runs_unordered_example =
    list_runs_unordered none 2 0 outputs outputs_back runs runs (Permᴰ.swap refl refl) same_outputs
      (λ k. refl)

abbrev snapshot : Option String → String → String → RawSnapshot String
snapshot symbol payload as_of = record {
  source_id = "source";
  symbol = symbol;
  payload = payload;
  as_of = as_of;
  is_stale = false;
  stale_reason = none;
  deviation_flags = [];
  content_hash = "";
}

-- The latest call is the first one here; it brings an older snapshot.
abbrev calls : List (RawSnapshot String)
calls =
    snapshot (some "GOLD") "old" "2026-01-01T00:00:00Z"
    ∷ snapshot none "lost" "2026-01-04T00:00:00Z"
    ∷ snapshot (some "GOLD") "new" "2026-01-03T00:00:00Z"
    ∷ snapshot (some "WTI") "oil" "2026-01-02T00:00:00Z"
    ∷ []

keeps_new :
    get_snapshot "GOLD" (record_all calls)
    ≡ some (record (snapshot (some "GOLD") "new" "2026-01-03T00:00:00Z") {
      is_stale = true;
      stale_reason = some "last_good";
    })
unfolding get_snapshot record_all
keeps_new = refl

get_snapshot-GivesNewest_example : GivesNewest "GOLD" calls (get_snapshot "GOLD" (record_all calls))
get_snapshot-GivesNewest_example = get_snapshot-GivesNewest "GOLD" calls

abbrev sample : ℕ → String → TotalMcapSample ℕ
sample value as_of = record { symbol = "TOTAL_MCAP"; value = value; as_of = as_of; run_id = none }

abbrev history : List (TotalMcapSample ℕ)
history = sample 3 "2026-01-03" ∷ sample 1 "2026-01-01" ∷ []

-- The second sample of a time replaces the first.
replaced :
    (record_and_list (sample 5 "2026-01-01") 1 history)
    ≡ (sample 3 "2026-01-03" ∷ [], sample 3 "2026-01-03" ∷ sample 5 "2026-01-01" ∷ [])
unfolding record_and_list
replaced = refl

record_and_list-IsRecent_example :
    let (shown, rows) = record_and_list (sample 2 "2026-01-02") 2 history in
    Some (λ r. r ≡ sample 2 "2026-01-02") rows
    × (select (λ r. not (same_key r (sample 2 "2026-01-02"))) rows
        ≡ select (λ r. not (same_key r (sample 2 "2026-01-02"))) history)
    × IsRecent "TOTAL_MCAP" 2 rows shown
record_and_list-IsRecent_example = record_and_list-IsRecent (sample 2 "2026-01-02") 2 history
