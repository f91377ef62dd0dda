-- ===== src/Storage/Jobs/Submit.antt =====
-- crates/watchdog/src/storage_jobs.rs: `insert_job_tx`, `submit_job_at` and `get_job`.
use ascension_watchdog.Prelude.{ℕ, String, Option, none, some, [], ◌∷◌, ◌++◌, str_eq}
use ascension_watchdog.Prelude.Tests.{ltb, leb, ◌==◌, if◌then◌else◌}
use ascension_watchdog.Prelude.Lists.{length, count_where}
use ascension_watchdog.Prelude.Text.{byte_len}
use ascension_watchdog.Error.{Result, ok, err, conflict, invalid_input, sqlite, ◌>>=◌, ◌>>◌}
use ascension_watchdog.Storage.Db.{JobStatus, JobRow, Db, Store, commit}
use ascension_watchdog.Storage.Metadata.{validate_name, sqlite_timestamp, insert_audit_tx}
use ascension_watchdog.Storage.Jobs.{Codec, JobRecord, job_from_row}
use ascension_watchdog.Storage.Jobs.Select.{job_row}

-- The row that a submission inserts.
abbrev pub submitted : String → String → String → String → ℕ → JobRow
submitted id kind encoded digest timestamp = record {
  id = id;
  kind = kind;
  payload = encoded;
  payload_digest = digest;
  status = JobStatus.queued;
  created_at_ms = timestamp;
  claimed_at_ms = none;
  completed_at_ms = none;
  attempt_count = 0;
  next_retry_at_ms = some timestamp;
  last_error = none;
  result = none;
  completion_digest = none;
  worker_id = none;
}

-- `INSERT INTO jobs`: a second row with the same primary key is refused.
unfoldable pub insert_job_row : Db → JobRow → Result Db
insert_job_row db row =
    if count_where (λ other. str_eq other.id row.id) db.jobs == 0
    then ok (record db { jobs = db.jobs ++ row ∷ [] })
    else err sqlite

unfoldable pub insert_job_tx : Db → String → String → String → String → ℕ → ℕ → Result Db
unfolding insert_job_row
insert_job_tx db id kind encoded digest max_jobs now_ms =
    if leb max_jobs (length db.jobs) then err conflict else do
      timestamp ← sqlite_timestamp now_ms
      inserted ← insert_job_row db (submitted id kind encoded digest timestamp)
      insert_audit_tx inserted "job_submitted" id now_ms

module _ {Value : Type 0} (codec : Codec Value) where
  abbrev decoded : Option JobRow → Result (Option (JobRecord Value))
  decoded none = ok none
  decoded (some row) = do job ← job_from_row codec row; ok (some job)

  unfoldable pub get_job : Store → String → Result (Option (JobRecord Value))
  unfolding job_row
  get_job s id = decoded (job_row s.db id)

  abbrev pub or_disappeared : Option (JobRecord Value) → Result (JobRecord Value)
  or_disappeared none = err conflict
  or_disappeared (some job) = ok job

  -- The checks before the transaction, and the transaction.
  unfoldable pub submit_tx : Store → String → String → Value → ℕ → Result (Unit {0} × Db)
  submit_tx s id kind payload now_ms = do
    validate_name kind 128
    encoded ← codec.to_text payload
    if ltb s.max_payload_bytes (byte_len encoded) then err invalid_input else do
      db ← insert_job_tx s.db id kind encoded (codec.hex_digest encoded) s.max_jobs now_ms
      ok (tt, db)

  abbrev pub then_get : String → Result (Unit {0}) × Store → Result (JobRecord Value) × Store
  then_get id (ok _, s) = (do found ← get_job s id; or_disappeared found, s)
  then_get id (err e, s) = (err e, s)

  -- `submit_job_at`, where `id` is the UUID that it draws.
  unfoldable pub submit_job_at :
      Store → String → String → Value → ℕ → Result (JobRecord Value) × Store
  unfolding submit_tx commit get_job
  submit_job_at s id kind payload now_ms =
      then_get id (commit s (submit_tx s id kind payload now_ms))
