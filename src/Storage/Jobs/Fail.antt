-- ===== src/Storage/Jobs/Fail.antt =====
-- crates/watchdog/src/storage_jobs.rs: `fail_job_at`.
use Prim.Native.String
use ascension_watchdog.Prelude.{ℕ, Bool, ◌&&◌, not, String, Option, none, some, str_eq}
use ascension_watchdog.Prelude.Tests.{◌==◌, if◌then◌else◌}
use ascension_watchdog.Prelude.Lists.{count_where, update_where}
use ascension_watchdog.Error.{Result, ok, err, ensure, conflict, not_found, ◌>>=◌, ◌>>◌}
use ascension_watchdog.Storage.Db.{JobStatus, AttemptStatus, JobRow, AttemptRow, Db, Store, commit}
use ascension_watchdog.Storage.Metadata.{sqlite_timestamp, insert_audit_tx, validate_detail}
use ascension_watchdog.Storage.Jobs.Select.{is_running, attempt_is_running, job_row, attempt_row}
use ascension_watchdog.Storage.Jobs.Complete.{has_running, is_running_job}

-- `WHERE id=? AND status='running'`
abbrev pub is_running_attempt : String → AttemptRow → Bool
is_running_attempt id row = str_eq row.id id && attempt_is_running row.status

-- `target`
unfoldable pub fail_target : Option ℕ → JobStatus
fail_target none = JobStatus.quarantined
fail_target (some at) = JobStatus.queued

-- `{target:?}`
abbrev target_debug : JobStatus → String
target_debug JobStatus.queued = "Queued"
target_debug JobStatus.running = "Running"
target_debug JobStatus.completed = "Completed"
target_debug JobStatus.failed = "Failed"
target_debug JobStatus.quarantined = "Quarantined"

abbrev pub optional_timestamp : Option ℕ → Result (Option ℕ)
optional_timestamp none = ok none
optional_timestamp (some at) = do timestamp ← sqlite_timestamp at; ok (some timestamp)

abbrev pub failed_attempt : ℕ → String → AttemptRow → AttemptRow
failed_attempt timestamp error row = record row {
  status = AttemptStatus.failed;
  finished_at_ms = some timestamp;
  outcome = some error;
}

abbrev pub failed_job : JobStatus → Option ℕ → String → JobRow → JobRow
failed_job target retry_at_ms error row = record row {
  status = target;
  next_retry_at_ms = retry_at_ms;
  last_error = some error;
  worker_id = none;
}

unfoldable pub fail_writes : Db → String → String → String → Option ℕ → ℕ → Result Db
unfolding fail_target
fail_writes db job_id attempt_id error retry_at_ms now_ms = do
  timestamp ← sqlite_timestamp now_ms
  ensure (count_where (is_running_attempt attempt_id) db.attempts == 1) conflict
  retry ← optional_timestamp retry_at_ms
  ensure (count_where (is_running_job job_id) db.jobs == 1) conflict
  insert_audit_tx
      (record db {
        attempts =
            update_where (is_running_attempt attempt_id) (failed_attempt timestamp error)
              db.attempts;
        jobs =
            update_where (is_running_job job_id) (failed_job (fail_target retry_at_ms) retry error)
              db.jobs;
      })
      "job_failed" (String.◌++◌ job_id (String.◌++◌ ":" (target_debug (fail_target retry_at_ms))))
      now_ms

unfoldable pub fail_row :
    Db → Option JobRow → String → String → String → Option ℕ → ℕ → Result (JobStatus × Db)
unfolding fail_writes attempt_row
fail_row db none job_id attempt_id error retry_at_ms now_ms = err not_found
fail_row db (some row) job_id attempt_id error retry_at_ms now_ms =
    if not (is_running row.status)
    then err conflict
    else if not (has_running (attempt_row db attempt_id job_id))
    then err conflict
    else do
      written ← fail_writes db job_id attempt_id error retry_at_ms now_ms
      ok (fail_target retry_at_ms, written)

unfoldable pub fail_tx : Db → String → String → String → Option ℕ → ℕ → Result (JobStatus × Db)
unfolding fail_row job_row
fail_tx db job_id attempt_id error retry_at_ms now_ms = do
  validate_detail error
  fail_row db (job_row db job_id) job_id attempt_id error retry_at_ms now_ms

unfoldable pub fail_job_at :
    Store → String → String → String → Option ℕ → ℕ → Result JobStatus × Store
unfolding fail_tx commit
fail_job_at s job_id attempt_id error retry_at_ms now_ms =
    commit s (fail_tx s.db job_id attempt_id error retry_at_ms now_ms)
