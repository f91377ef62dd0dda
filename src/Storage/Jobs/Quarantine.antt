-- ===== src/Storage/Jobs/Quarantine.antt =====
-- crates/watchdog/src/storage_jobs.rs: `quarantine_interrupted_jobs`.
use ascension_watchdog.Prelude.{ℕ, Bool, ◌&&◌, String, some, List, [], ◌∷◌, str_eq, map}
use ascension_watchdog.Prelude.Tests.{◌==◌}
use ascension_watchdog.Prelude.Lists.{length, count_where, keep_where, update_where}
use ascension_watchdog.Error.{Result, ok, ensure, conflict, ◌>>=◌, ◌>>◌}
use ascension_watchdog.Storage.Db.{JobStatus, AttemptStatus, JobRow, AttemptRow, Db, Store, commit}
use ascension_watchdog.Storage.Metadata.{sqlite_timestamp, insert_audit_tx}
use ascension_watchdog.Storage.Jobs.Select.{is_running, attempt_is_running}
use ascension_watchdog.Storage.Jobs.Complete.{is_running_job}

-- `WHERE job_id=? AND status='running'`
abbrev pub is_running_attempt_of : String → AttemptRow → Bool
is_running_attempt_of job_id row = str_eq row.job_id job_id && attempt_is_running row.status

abbrev pub interrupted_attempt : ℕ → AttemptRow → AttemptRow
interrupted_attempt timestamp row = record row {
  status = AttemptStatus.unknown;
  finished_at_ms = some timestamp;
  outcome = some "daemon_interrupted";
}

abbrev pub interrupted_job : JobRow → JobRow
interrupted_job row = record row {
  status = JobStatus.quarantined;
  last_error = some "daemon interrupted; outcome unknown";
}

-- One round of the loop over the interrupted jobs.
unfoldable pub quarantine_one : Db → String → ℕ → Result Db
quarantine_one db job_id now_ms = do
  timestamp ← sqlite_timestamp now_ms
  ensure (count_where (is_running_attempt_of job_id) db.attempts == 1) conflict
  ensure (count_where (is_running_job job_id) db.jobs == 1) conflict
  insert_audit_tx
      (record db {
        attempts =
            update_where (is_running_attempt_of job_id) (interrupted_attempt timestamp) db.attempts;
        jobs = update_where (is_running_job job_id) interrupted_job db.jobs;
      })
      "job_quarantined_after_interruption" job_id now_ms

unfoldable pub quarantine_all : Db → List String → ℕ → Result Db
unfolding quarantine_one
quarantine_all db [] now_ms = ok db
quarantine_all db (job_id ∷ ids) now_ms = do
  db' ← quarantine_one db job_id now_ms
  quarantine_all db' ids now_ms

-- `SELECT id FROM jobs WHERE status='running'`
abbrev pub running_ids : Db → List String
running_ids db = map (λ row. row.id) (keep_where (λ row. is_running row.status) db.jobs)

unfoldable pub quarantine_tx : Db → ℕ → Result (ℕ × Db)
unfolding quarantine_all
quarantine_tx db now_ms = do
  db' ← quarantine_all db (running_ids db) now_ms
  ok (length (running_ids db), db')

unfoldable pub quarantine_interrupted_jobs : Store → ℕ → Result ℕ × Store
unfolding quarantine_tx commit
quarantine_interrupted_jobs s now_ms = commit s (quarantine_tx s.db now_ms)
