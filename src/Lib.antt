-- ===== src/Lib.antt =====
-- The supervision policy and the durable store of the ascension watchdog (crates/watchdog/src), a
-- daemon that keeps the components of one deployment running within a restart budget and hands
-- queued jobs to at most one worker at a time.
-- The parts and their files:
-- * Prelude.antt and its children: the names, tests, lists, machine words and texts that all parts
--   share, without a part of the program.
-- * Error.antt (error.rs): the classes of error and `Result`; messages and inner errors are left
--   out.
-- * Config.antt (config.rs): `DesiredMode`, and the fields of `WatchdogConfig` that the policy
--   reads.
-- * Policy (policy.rs): Policy/Budget.antt is `RestartBudget`, its Bounds and Window what any
--   history of calls keeps; Policy/Backoff.antt is `SupervisorPolicy` with its delays and windows;
--   Policy/Decide.antt is `decide`, with its theorems in Starts and Stops. SHA-256 is an argument,
--   a function from bytes to bytes.
-- * Storage/Db.antt (storage_schema.rs, storage.rs): the tables as lists of rows, the `Store` as
--   their committed state, and `commit`, which rolls back on an error.
-- * Storage/Metadata.antt (storage_metadata.rs): the metadata, the audit ledger with its reserves,
--   the desired mode and the value guards; theorems in Ledger and Mode.
-- * Storage/Jobs.antt and its children (storage_jobs.rs): Submit, Claim, Complete, Fail and
--   Quarantine are the transactions; Select holds their queries; Counts and Outcomes say what each
--   does to the numbers of running jobs and unresolved attempts; History runs any sequence of
--   calls; Invariant, Hold, Oldest, Answers, Retry and Stored hold the theorems. serde_json and
--   SHA-256 are the argument `Codec`; a fresh UUID is an argument of the call that draws it.
-- * Storage/Launch.antt (storage_launch_intents.rs): the admission of a launch before its process
--   exists, and the intent's life cycle; Kept classifies the transactions, Cycle runs histories of
--   calls, Gates says when a launch is admitted and when an intent becomes active. The test for a
--   null JSON value is an argument beside the `Codec`.
-- * Storage/Components.antt (storage_components.rs): the durable restart budget, which a new
--   controller instance does not reset, and the component rows with their persisted identity.
-- * Health.antt (gateway_health_codec.rs): the tags that authenticate the gateway's health requests
--   and responses, with the theorems in Health/Tags.antt. HMAC-SHA256 is an argument.
-- * Storage/Worker (storage_worker_*.rs): the hand-off of a job to a worker. Types and the bounds
--   and schema texts; Outside holds what the code takes from other crates as one record: the
--   `Codec`, the comparison of JSON values, the printed digest material, and UUIDs. Validate,
--   Control (binding and control of the worker), Jobs, Rows, Consistency and Queries read the rows
--   and check them; Claim, Dispatch, Complete and Acknowledge are the transactions, with the five
--   UUIDs of a claim as its argument `DrawnIds`.
-- * Storage/Worker/Life.antt is the abstract machine of a hand-off's stages and Kept the class of
--   change that a transaction is; Inversions, Claims, Controls and Endings show it for each
--   transaction, Counts and Loaded what each does to the counts and what the loader read, and Cycle
--   runs histories of calls of the hand-off and of the queue. The theorems are in Exclusive, Lives,
--   Once, Final, Gates, Handed, Reconcile and Held.
-- State passes explicitly: a transaction maps the tables to a result with the tables that it
-- commits, and a `Store` method returns the answer with the store after it. Milliseconds and counts
-- are natural numbers; saturating operations and the limits of u32, u64 and i64 are written out.
-- INTEGER columns hold the non-negative values that the code writes, status columns are
-- enumerations as their CHECK constraints say, and AUTOINCREMENT identifiers are positions. The
-- decimal printer takes 20 rounds, which reach every u64.
-- Not modelled: failures of SQLite itself (I/O, locks), the process adapters, the HTTP and
-- named-pipe transports, the release and backup files, the command line, the operator endpoint, and
-- the creation, migration and inspection of the tables with the bootstrap binding of the worker.
-- The columns of a tuple are one field of a row; a text column of another SQLite type is not
-- represented.
pub mod Prelude
pub mod Error
pub mod Config
pub mod Policy
pub mod Storage
pub mod Health
