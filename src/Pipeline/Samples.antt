-- ===== src/Pipeline/Samples.antt =====
-- A database of lists under the pipeline, and runs on it.
mod Events
use tread_agent.Base.{
  Bool-cases, inl, inr, ℕ, suc, ◌≡◌, refl, ap, sym, String, true, false, none, some, List, [], ◌∷◌,
  map, str_eq, if◌then◌else◌,
}
use tread_agent.Reasoning.Types.{sentiment, success}
use tread_agent.Reasoning.Gateway.Attempt.{CallRecord}
use tread_agent.Pipeline.Store.{
  scheduled, run_start, run_finish, degraded, provider_call, RunDoc, IngestBundle, RunRow,
  RuleActivationRow, Tables, with_row, Ended, returned, raised, Backend, IsBackend, contents,
  run_exists,
}
use tread_agent.Pipeline.Runner.{
  RunContext, Outside, RunService, PipelineResult, execute, collect_data_gaps,
}
use tread_agent.Pipeline.Runner.Persist.{orchestrated}
use tread_agent.Pipeline.Runner.Story.{Ends, execute-Ends}
use tread_agent.Pipeline.Runner.Ids.{DistinctIds, execute-DistinctIds}

abbrev Rows : Type 0
Rows = Tables ℕ String String

-- A session is the tables with which it began, and those that it has made of them.
abbrev lists : Backend ℕ String String Rows (Rows × Rows)
lists = record {
  begin = λ d. (d, d);
  commit = λ s. returned s.1;
  rollback = λ s. s.0;
  add = λ r s. (s.0, with_row r s.1);
  tables = λ s. s.1;
}

abbrev blank : Rows
blank = record {
  runs = [];
  run_outputs = [];
  run_inputs = [];
  call_records = [];
  rule_activations = [];
  event_log = [];
  macro_events = [];
}

abbrev back : Ended Rows → Rows
back (returned d) = d
back (raised _) = blank

lists-IsBackend : IsBackend lists
lists-IsBackend = record {
  base = λ s. s.0;
  tables-add = λ r s. refl;
  tables-commit = λ s d h. sym (ap back h);
  base-begin = λ d. refl;
  base-add = λ r s. refl;
  rollback-base = λ s. refl;
}

abbrev doc : RunDoc ℕ String
doc = record {
  run_id = "r1";
  run_sequence = 1;
  trigger_type = scheduled;
  is_degraded = true;
  guardrail_flags = [];
  assets =
      record {
        symbol = "GOLD";
        activated_rules =
            record { rule_id = "g1"; strength = "strong"; horizon = "1d"; decay_remaining = 4 }
            ∷ [];
        data_gaps = "gap" ∷ [];
      }
      ∷ [];
  other = "";
}

abbrev a_call : CallRecord String ℕ
a_call = record {
  run_id = "r1";
  llm_job = sentiment;
  attempt_index = 0;
  provider = "beta";
  model_id = "m";
  prompt_version = "v1";
  prompt_hash = "h";
  rendered_prompt = "p";
  response = some "data";
  response_hash = some "data";
  latency_ms = 7;
  input_tokens = none;
  output_tokens = none;
  estimated_cost = none;
  retries = 0;
  finish_reason = none;
  outcome = success;
  created_at = "now";
}

abbrev result_for : RunContext String → PipelineResult ℕ String
result_for c = record {
  run = record doc { run_id = c.run_id; run_sequence = c.run_sequence };
  is_degraded = true;
  published = true;
}

abbrev answer :
    RunContext String
    → String
    → ℕ
    → Ended (PipelineResult ℕ String) × List (CallRecord String ℕ) × ℕ
answer c snapshots e =
    if str_eq snapshots "bad"
    then (raised "ValueError", [], e)
    else (returned (result_for c), a_call ∷ [], e)

-- The clock counts its readings. The orchestrator raises on the ingest "bad".
abbrev outside : Outside ℕ String String ℕ
outside = record {
  clock = λ e. (e, suc e);
  ulid = λ e. ("ulid", e);
  hash_inputs = λ i. "in";
  hash_output = λ o. "out";
  orchestrate = λ c ingest e. answer c ingest.snapshots e;
}

abbrev named : Ended (PipelineResult ℕ String) → String
named (returned result) = result.run.run_id
named (raised x) = x

abbrev service : RunService
service = record { pipeline_version = "1.2.0"; replaying = false }

abbrev ctx : RunContext String
ctx = record {
  run_id = "r1";
  run_sequence = 1;
  trigger_type = scheduled;
  trigger_detail = none;
  now = 0;
  previous = "";
}

abbrev good : IngestBundle ℕ String
good = record { snapshots = "good"; events = [] }

abbrev bad : IngestBundle ℕ String
bad = record { snapshots = "bad"; events = [] }

executed :
    let (r, d, e) = execute lists outside service ctx good blank 0 in
    (map (λ l. l.event_type) d.event_log ≡ run_start ∷ provider_call ∷ degraded ∷ run_finish ∷ [])
    × (map (λ (r : RunRow). r.status) d.runs ≡ "degraded" ∷ [])
    × (map (λ (a : RuleActivationRow ℕ). a.symbol) d.rule_activations ≡ "GOLD" ∷ [])
    × (e ≡ 5)
unfolding execute run_exists collect_data_gaps
executed = (refl, refl, refl, refl)

execute-Ends_example :
    let (r, d, e) = execute lists outside service ctx good blank 0 in
    Ends lists lists-IsBackend outside service ctx good blank 0 r d
execute-Ends_example = execute-Ends lists lists-IsBackend outside service ctx good blank 0

blank_new : run_exists "r1" (contents lists blank).runs ≡ false
unfolding run_exists
blank_new = refl

stamped :
    (result : PipelineResult ℕ String)
    → (orchestrated outside service ctx good 0).0 ≡ returned result
    → result.run.run_id ≡ "r1"
stamped result h = ap named (sym h)

execute-DistinctIds_example :
    DistinctIds (contents lists (execute lists outside service ctx good blank 0).1).runs
execute-DistinctIds_example =
    execute-DistinctIds lists lists-IsBackend outside service ctx good blank 0 stamped tt

abbrev number : Ended (PipelineResult ℕ String) → ℕ
number (returned result) = result.run.run_sequence
number (raised x) = 0

pub numbered :
    (c : RunContext String) (ingest : IngestBundle ℕ String) (e : ℕ)
    (result : PipelineResult ℕ String)
    → (orchestrated outside service c ingest e).0 ≡ returned result
    → result.run.run_sequence ≡ c.run_sequence
numbered c ingest e result h = elim (Bool-cases (str_eq ingest.snapshots "bad")) [
  | inl bad ↦ let k : raised "ValueError" ≡ returned result = rw bad at h in absurd cc
  | inr fine ↦ let k : returned (result_for c) ≡ returned result = rw fine at h in ap number (sym k)
]
