-- ===== src/Lib.antt =====
-- Verification of the Rust service under src/, a store of objects and of the runs that change them.
--
-- The service keeps one PostgreSQL database. Its handlers check a request, open a transaction and
-- issue SQL statements. Here a table is a list of rows, a statement a function on it, and a
-- transaction fails as a whole; the clock, fresh ids, the printing of ids and of JSON, the
-- constraints of the database and the tables of Unicode are arguments of the definitions.
--
-- Common, Text, Json, Errors hold what the parts share: `Result` and its monad, integers with
-- checked arithmetic, Rust's `str` as a list of scalar values with its length in bytes, serde_json's
-- values, and the error types of src/domain.rs, src/db/mod.rs and src/intake.rs.
--
-- Runs is the table of src/runs.rs. Runs/History states the trigger of
-- migrations/0017_consolidated_schema.sql that guards it. Runs/Validation has the requests of the
-- workflow endpoints and their `validate` methods, Runs/Workflow the operations start_workflow_run,
-- append_workflow_trace and finish_workflow_run, Runs/Interactions the operations on reviews, links,
-- traces, Slack interactions and curator runs (Runs/Interactions/Curation). Runs/Usage has
-- metered_micro_usd, NormalizedUsage::validate (Runs/Usage/Validation) and record_usage
-- (Runs/Usage/Recording). Runs/Once is the lemma behind the replays: an update that its own effect
-- bars.
--
-- ExternalActions is src/external_actions.rs, on the same table: the handlers append_event and
-- reserve (ExternalActions/Reservations), the state machine `transition` (ExternalActions/States)
-- and the privacy check of metadata (ExternalActions/Metadata). The metadata that are stored come
-- back with their floats as PostgreSQL keeps them, which is a parameter (`jsonb` of Json). The
-- advisory locks of the handlers are why each of them is one step. ExternalActions/Reach is the
-- relation of the tables that requests can make.
--
-- Embeddings is the cutting of artifacts in src/embeddings.rs. The loop over the windows has fuel
-- of the length of the text plus one, since every window starts after the last one; the binary
-- search has the width of its interval plus one.
--
-- Domain is the checks of texts, slugs and provenance in src/domain.rs. EventTime is
-- src/event_time.rs, with chrono's calendar and time zones as the parameter `Calendar`.
--
-- Curator is the reconciliation plans of src/curator.rs: `validate_plan`, which runs when a plan is
-- proposed and again when it is committed, the checks of the evidence and the worker's filter
-- (Curator/Evidence), and the checks of the commit (Curator/Commit). Curator/Allowed and
-- Curator/Filter say what the filter lets through, Curator/Grounds and
-- Curator/Accepted have what a plan is that passes them.
--
-- EventMemory is the validation of the plans of Events and Memories in src/event_memory.rs: it uses
-- Domain for texts and EventTime for times.
--
-- Routines is src/db/routines.rs: schedules, `routine_configure` and `routine_claim_due`
-- (Routines/Claims), and `routine_run_update` (Routines/Occurrences). Routines/Life has the moves of
-- an occurrence as a relation, Routines/Requests the histories of requests. The unique indexes and
-- the trigger of migrations/0032_task_routines.sql are part of the operations.
--
-- Connections is src/db/connections.rs: creations, updates and archivings (Connections/Changes), with
-- the tables of connections and of the events of src/db/events.rs, their unique indexes and the
-- replay by an idempotency key (Connections/Retry), what any writes keep of them (Connections/Effects,
-- Connections/Keys, Connections/Sound, Connections/Writes), and the
-- merge of an assertion into a provenance (Connections/Merge). The run that carries an event and the
-- fence of a thread are left out.
--
-- Search is the packing of a context under a budget in src/search.rs; the length of the JSON of a
-- packet is a parameter. Artifacts is the window of src/db/artifacts.rs. EmbeddingJobs is the queue
-- of src/db/embeddings.rs: claims, completions and failures of the workers. CodexOutcomes is the
-- verification of a receipt of Git commits in src/codex_outcomes.rs, with the two hashes as parameters.
--
-- Not modelled: HTTP, the writes that apply a plan (reconcile_owned and undo_as of src/curator.rs,
-- apply_events and apply_memories of src/event_memory.rs, src/universal.rs), the ranking of src/search.rs,
-- which is floating-point arithmetic, the SQL of the other tables, the calls of language models and of
-- the embedding service, the web interface and the tools.
pub mod Common
pub mod Search
pub mod Text
pub mod Json
pub mod Errors
pub mod Routines
pub mod Runs
pub mod Embeddings
pub mod ExternalActions
pub mod Artifacts
pub mod Connections
pub mod Curator
pub mod Domain
pub mod CodexOutcomes
pub mod EmbeddingJobs
pub mod EventMemory
pub mod EventTime
