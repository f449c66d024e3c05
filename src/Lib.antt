-- ===== src/Lib.antt =====
-- The market state engine (src/market_state_engine, Python): the run that turns market data, events and
-- news into a published market state, its LLM gateway and the replay of its calls, the pipeline that
-- executes, persists and triggers runs, and its rulebook.
--
-- The parts, and how they interact. An event trigger or a schedule asks the scheduler for a run; the
-- scheduler gives it an identity and hands it to the run service; that calls the orchestrator and writes
-- the run and all that happened into the database. The orchestrator takes its inputs through features,
-- the news digest, rules, scores and assembly, asks the gateway for a sentiment and a summary, composes
-- the run and publishes it if the guardrails let it. The gateway calls the LLM providers, or the replay
-- providers of a recorded run. The rules turn the surprises of macro events into one effect for each
-- asset.
--
-- Base passes on the names that the modules share, with their tests, lists, Python's dict (Base/Dict),
-- sorted (Base/Sort) and order of texts (Base/Order).
--
-- Reasoning is src/market_state_engine/reasoning.
--   Types        errors.py, outcome.py, types.py: a Python exception is a value here
--   Breaker      reliability/circuit_breaker.py: CircuitBreaker is a record; _maybe_half_open is
--                maybe_half_open, allows, record_success, record_failure (with _prune and _trip) and
--                for_provider keep their names; proofs in Breaker/Invariant, Window, Cooldown, Decided
--   Health       reliability/health.py: record is record_outcome, with snapshot and all_snapshots;
--                proofs in Health/Rolled, Snapshot
--   Config       provider_config.py and registry.py: fields, ranges, validators, enabled_providers,
--                call_params_for; proofs in Config/Chain, Loaded
--   Retry        reliability/retry.py: RetryPolicy.run is run_retrying; proofs in Retry/Ends
--   Timeout      reliability/timeout.py: TimeoutPolicy.run is run_timed
--   Router       reliability/router.py: order, _weighted_first, _seed_fraction; proofs in
--                Router/Order, Distinct
--   Gateway      gateway.py: _try_provider, _call and _record in Gateway/Attempt; _run with its loop in
--                Gateway; proofs in Gateway/Trace, Bookkeeping, Timely, Fresh, Kept, Alone,
--                Rounds, Serving
--   Replay       replay.py and adapters/replay.py: ReplayProvider.complete is complete, with
--                build_replay_adapters and verify_replay; integration.py's
--                build_replay_gateway in Replay/Rebuilt; proofs in Replay/Served, Verified,
--                Attempts, Repeated, Told, Again, Same, Reproduced
-- Pipeline is src/market_state_engine/pipeline with the part of src/market_state_engine/persistence
-- that it uses.
--   Store        persistence/models.py, repositories.py and session.py: the rows, the tables, and a
--                session over an interface to SQLAlchemy (Backend, with its laws IsBackend)
--   Runner       runner.py and events.py: RunService.execute is execute; proofs in Runner/Rows,
--                Persist, Story, Ids
--   Scheduler    scheduler.py: trigger, its callers and the lock; the sequence numbers are those of
--                _counter, or of app/container.py's _next_run_sequence, which reads the stored runs;
--                proofs in Scheduler/Numbered
--   Trigger      event_trigger.py: submit and _execute_pending, with what they read of the tables in
--                Pending; Trigger/Holds has the rules for calls that may raise, Trigger/Kept, Runs, Pending,
--                Once, Debounce and Starts the proofs
-- Rules is src/market_state_engine/rules.
--   Models       models.py
--   Condition    the pattern of matcher.py; Condition/Text prints, proofs in Condition/Printed
--   Matcher      matcher.py: evaluate_condition, rule_matches, resolved_effects
--   Conflict     conflict.py: resolve_asset_effects; proofs in Conflict/Strongest
--   Engine       engine.py: RuleEngine.match is match_rules, with its records in Activations; proofs in
--                Engine/Filed, Sources, Total
--   Loader       loader.py: the lints and load_rulebook's loop; proofs in Loader/Gate
-- Market is the deterministic part of a run, on floats that are an interface.
--   Numbers      the operations on floats, and what the proofs ask of their order (IsOrdered)
--   Models       core/models.py and core/enums.py: the document of a run
--   Ranges       core/dtos.py and core/models.py: the ranges of the fields, which raise ValidationError
--   Scoring      scoring: trend, importance, risk, regime and confidence; proofs in Scoring/Bounds,
--                Insensitive
--   Features     features: indicators, changes and surprises in Features/Technical; compute keeps its
--                name; proofs in Features/Sources
--   Guardrails   guardrails/checks.py and engine.py; proofs in Guardrails/Publish, Codes
--   Assembly     assembly/deterministic_state.py, with plain fields in Fields; proofs in Assembly/Honest
--   Orchestrator pipeline/orchestrator.py: run_stages is PipelineOrchestrator.run, over an interface to its
--                engines (Engines); the digest, requests and answers are in Messages, and what it takes of
--                them in Answers; proofs in Orchestrator/Composed, Published, Unmoved
--   Fixed        a concrete instance of the numbers, for the tests
-- News is src/market_state_engine/news.
--   Patterns     Python's re as far as relevance.py uses it: Direct and Topics are its tables
--   Relevance    relevance.py: compute_relevance_map is relevance_map; proofs in Relevance/Signals, Tags
--   Weigher      weigher.py and features/decay.py: weigh and _select_items; proofs in Weigher/Ids, Capped
-- Storage is the rest of src/market_state_engine/persistence.
--   Reads        repositories.py: the queries on runs, outputs and events; proofs in Reads/Pages,
--                Unordered
--   Keyed        repositories.py, last_good.py, total_mcap_history.py: tables written by key; proofs in
--                Keyed/Newest, History
-- Run is pipeline/orchestrator.py with its own engines: own_engines fills the interface with the feature
-- engine and the weigher; proof in Run/Completes.
-- The modules called Samples have tests on small inputs.
--
-- How the code is modelled. The clock, the adapters, SQLAlchemy, hashes and ULIDs are parameters:
-- functions on a state E of the world, read in the order in which the code calls them; so is the
-- orchestrator for the run service, whose own model is in Market and Run. A time is a
-- whole number of the clock's ticks, or its text, which a parameter reads; a text of a time is the
-- instant that it is of. Floats are a parameter with the operations that the code uses, and with the laws
-- of an order where a theorem asks for them, except in the router and the health monitor, whose fractions
-- are exact. A loop is a recursion on the list or on the number of retries that it goes over. Fuel is used
-- twice, in what stands for regular expressions: removing tags has the size of the text plus one, and a
-- repeated word the length of the rest of the text; Relevance/Tags and Patterns/Ends say why that is
-- enough. A regular expression is read on ASCII texts. A dict is an association list in the order of
-- insertion, a table a list of its rows in the order of insertion; a commit may raise, and a session that
-- ends by an exception is rolled back. A column that copies a field of a document as it is may be left
-- out of a row.
--
-- Not modelled: the text of logs and of error messages, and the details of a guardrail's finding; two
-- processes on one database; reading YAML and JSON, and Pydantic's validation of types; its ranges are
-- modelled for the configuration of the providers, the features, the scores and the assembled document,
-- not for news items and the answers of a language model, which come validated; texts with a lone
-- surrogate, for which the hash of an answer raises; digits and spaces outside ASCII. The API, the app and
-- its configuration, ingestion, evaluation, prompts and prices, the provider adapters, migrations and
-- observability are not here: they are calls of third-party services and frameworks, or wiring.
mod Base
pub mod Reasoning
pub mod Pipeline
pub mod Rules
pub mod Market
pub mod Storage
pub mod News
pub mod Run
