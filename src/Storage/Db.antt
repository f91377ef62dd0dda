-- ===== src/Storage/Db.antt =====
-- The tables of the store (crates/watchdog/src/storage_schema.rs; those of the worker are in
-- Storage/Worker/Types.antt), the `Store` over them
-- (storage.rs), and its transactions. A table is the list of its rows in insertion order. INTEGER
-- columns hold the non-negative values that the code writes; rows that other programs corrupted
-- are not represented.
use ascension_watchdog.Prelude.{ℕ, String, Option, ◌≡◌, refl, ap, sym, List}
use ascension_watchdog.Error.{Result, ok, err}
use ascension_watchdog.Storage.Worker.Types.{BindingRow, ControlRow, HandoffRow}

pub data JobStatus : Type 0 where
  queued running completed failed quarantined : JobStatus

-- `CHECK(status IN ('running','completed','failed','unknown'))`
pub data AttemptStatus : Type 0 where
  running completed failed unknown : AttemptStatus

pub record JobRow : Type 0 where
  pub id : String
  pub kind : String
  pub payload : String
  pub payload_digest : String
  pub status : JobStatus
  pub created_at_ms : ℕ
  pub claimed_at_ms : Option ℕ
  pub completed_at_ms : Option ℕ
  pub attempt_count : ℕ
  pub next_retry_at_ms : Option ℕ
  pub last_error : Option String
  pub result : Option String
  pub completion_digest : Option String
  pub worker_id : Option String

pub record AttemptRow : Type 0 where
  pub id : String
  pub job_id : String
  pub sequence : ℕ
  pub lineage : String
  pub status : AttemptStatus
  pub started_at_ms : ℕ
  pub finished_at_ms : Option ℕ
  pub worker_id : Option String
  pub outcome : Option String

-- The AUTOINCREMENT `id` is the position in the list.
pub record AuditRow : Type 0 where
  pub action : String
  pub detail : String
  pub occurred_at_ms : ℕ

pub record MetadataRow : Type 0 where
  pub key : String
  pub value : String

pub data LaunchIntentState : Type 0 where
  prepared proof_recorded active cleaned : LaunchIntentState

-- A row that version 1 of the schema wrote has no expected incarnation and digest.
pub record IntentRow : Type 0 where
  pub id : String
  pub deployment_id : String
  pub component_id : String
  pub launch_nonce : String
  pub expected_incarnation : Option String
  pub expected_launch_spec_digest : Option String
  pub planned_containment_id : Option String
  pub state : LaunchIntentState
  pub ownership_proof_json : Option String
  pub created_at_ms : ℕ
  pub updated_at_ms : ℕ

pub record RestartRow : Type 0 where
  pub component_id : String
  pub occurred_at_ms : ℕ
  pub clock_epoch : String
  pub clock_elapsed_ms : ℕ

pub record ComponentRow : Type 0 where
  pub id : String
  pub state : String
  pub launch_nonce : Option String
  pub pid : Option ℕ
  pub executable_digest : Option String
  pub started_at_ms : Option ℕ
  pub restart_attempts : ℕ
  pub last_restart_at_ms : Option ℕ
  pub last_error : Option String
  pub identity_json : Option String
  pub updated_at_ms : ℕ

pub record Db : Type 0 where
  pub metadata : List MetadataRow
  pub audit : List AuditRow
  pub jobs : List JobRow
  pub attempts : List AttemptRow
  pub intents : List IntentRow
  pub restarts : List RestartRow
  pub components : List ComponentRow
  pub worker_binding : Option BindingRow
  pub worker_control : Option ControlRow
  pub worker_handoffs : List HandoffRow

-- The tables of the worker, and that two states have the same.
abbrev pub worker_tables : Db → Option BindingRow × Option ControlRow × List HandoffRow
worker_tables db = (db.worker_binding, db.worker_control, db.worker_handoffs)

abbrev pub SameWorker : Db → Db → Type 0
SameWorker db db' = worker_tables db' ≡ worker_tables db

-- The SQLite connection is the committed state of its tables.
pub record Store : Type 0 where
  pub db : Db
  pub max_jobs : ℕ
  pub max_payload_bytes : ℕ
  pub restart_clock_epoch : String

-- A transaction's result with the state it commits. An error drops the `Transaction`, which rolls
-- back: the store is as it was.
unfoldable pub commit {ℓ} : {A : Type ℓ} → Store → Result (A × Db) → Result A × Store
commit s (ok (a, db)) = (ok a, record s { db = db })
commit s (err e) = (err e, s)

-- What a committed success says of the transaction.
pub commit-ok {ℓ} :
    {A : Type ℓ} (s : Store) (r : Result (A × Db)) {a : A} {s' : Store}
    → commit s r ≡ (ok a, s')
    → (db : Db) × (r ≡ ok (a, db)) × (s' ≡ record s { db = db })
unfolding commit
commit-ok s (ok (b, db)) h = (db, cc (ap (λ p. p.0) h), sym (ap (λ p. p.1) h))
commit-ok s (err e) h = cc (ap (λ p. p.0) h)

-- A property of stores that a transaction's success keeps holds after it, whatever its result.
pub commit-keeps {ℓ κ} :
    {A : Type ℓ} (P : Store → Type κ) (s : Store) (r : Result (A × Db))
    → P s
    → ((a : A) (db : Db) → r ≡ ok (a, db) → P (record s { db = db }))
    → P (commit s r).1
unfolding commit
commit-keeps P s (ok (a, db)) h kept = kept a db refl
commit-keeps P s (err e) h kept = h
