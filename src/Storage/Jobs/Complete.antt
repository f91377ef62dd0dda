-- ===== src/Storage/Jobs/Complete.antt =====
-- crates/watchdog/src/storage_jobs.rs: `complete_job_at`.
use Prim.Native.String
use ascension_watchdog.Prelude.{ℕ, Bool, true, false, ◌&&◌, not, String, Option, none, some, str_eq}
use ascension_watchdog.Prelude.Tests.{leb, ◌==◌, if◌then◌else◌}
use ascension_watchdog.Prelude.Lists.{count_where, update_where}
use ascension_watchdog.Prelude.Text.{byte_len}
use ascension_watchdog.Error.{
  Result, ok, err, ensure, conflict, invalid_input, not_found, ◌>>=◌, ◌>>◌,
}
use ascension_watchdog.Storage.Db.{JobStatus, AttemptStatus, JobRow, AttemptRow, Db, Store, commit}
use ascension_watchdog.Storage.Metadata.{sqlite_timestamp, insert_audit_tx}
use ascension_watchdog.Storage.Jobs.{Codec, Completion, max_result_bytes}
use ascension_watchdog.Storage.Jobs.Select.{
  is_running, is_completed, attempt_is_running, job_row, attempt_row, completed_attempt,
}

-- `as_deref() == Some(text)`
abbrev pub is_text : Option String → String → Bool
is_text none text = false
is_text (some other) text = str_eq other text

abbrev pub attempt_id_of : Option AttemptRow → Option String
attempt_id_of none = none
attempt_id_of (some row) = some row.id

abbrev pub has_running : Option AttemptRow → Bool
has_running none = false
has_running (some row) = attempt_is_running row.status

-- `WHERE id=? AND job_id=? AND status='running'`
abbrev pub is_active_attempt : String → String → AttemptRow → Bool
is_active_attempt id job_id row =
    str_eq row.id id && str_eq row.job_id job_id && attempt_is_running row.status

-- `WHERE id=? AND status='running'`
abbrev pub is_running_job : String → JobRow → Bool
is_running_job id row = str_eq row.id id && is_running row.status

abbrev pub completed_row : ℕ → String → AttemptRow → AttemptRow
completed_row timestamp outcome row = record row {
  status = AttemptStatus.completed;
  finished_at_ms = some timestamp;
  outcome = some outcome;
}

abbrev pub completed_job : ℕ → String → String → JobRow → JobRow
completed_job timestamp result digest row = record row {
  status = JobStatus.completed;
  completed_at_ms = some timestamp;
  result = some result;
  completion_digest = some digest;
  last_error = none;
}

-- The two updates and the audit of a completion, each update of exactly one row.
unfoldable pub complete_writes : Db → String → String → String → String → ℕ → Result Db
complete_writes db job_id attempt_id text digest now_ms = do
  timestamp ← sqlite_timestamp now_ms
  ensure (count_where (is_active_attempt attempt_id job_id) db.attempts == 1) conflict
  ensure (count_where (is_running_job job_id) db.jobs == 1) conflict
  insert_audit_tx
      (record db {
        attempts =
            update_where (is_active_attempt attempt_id job_id) (completed_row timestamp text)
              db.attempts;
        jobs = update_where (is_running_job job_id) (completed_job timestamp text digest) db.jobs;
      })
      "job_completed" (String.◌++◌ job_id (String.◌++◌ ":" attempt_id)) now_ms

module _ {Value : Type 0} (codec : Codec Value) (null : Value) where
  abbrev pub parse_or_null : Option String → Result Value
  parse_or_null none = ok null
  parse_or_null (some text) = codec.from_text text

  -- A job that is already completed: a repeat by the same attempt with the same result is answered
  -- again, anything else is a conflict.
  unfoldable pub repeat_tx : Db → JobRow → String → String → String → Result (Completion Value × Db)
  unfolding completed_attempt
  repeat_tx db row job_id attempt_id digest =
      if not (is_text (attempt_id_of (completed_attempt db job_id)) attempt_id)
      then err conflict
      else if not (is_text row.completion_digest digest)
      then err conflict
      else do
        parsed ← parse_or_null row.result
        ok (
          record {
            job_id = job_id;
            attempt_id = attempt_id;
            result = parsed;
            already_completed = true;
          },
          db,
        )

  unfoldable pub complete_row :
      Db → Option JobRow → String → String → Value → String → ℕ → Result (Completion Value × Db)
  unfolding repeat_tx complete_writes attempt_row
  complete_row db none job_id attempt_id result text now_ms = err not_found
  complete_row db (some row) job_id attempt_id result text now_ms =
      let digest = codec.hex_digest text in
      if is_completed row.status
      then repeat_tx db row job_id attempt_id digest
      else if not (is_running row.status)
      then err conflict
      else if not (has_running (attempt_row db attempt_id job_id))
      then err conflict
      else do
        written ← complete_writes db job_id attempt_id text digest now_ms
        ok (
          record {
            job_id = job_id;
            attempt_id = attempt_id;
            result = result;
            already_completed = false;
          },
          written,
        )

  unfoldable pub complete_tx : Db → String → String → Value → ℕ → Result (Completion Value × Db)
  unfolding complete_row job_row
  complete_tx db job_id attempt_id result now_ms = do
    text ← codec.to_text result
    ensure (leb (byte_len text) max_result_bytes) invalid_input
    complete_row db (job_row db job_id) job_id attempt_id result text now_ms

  unfoldable pub complete_job_at :
      Store → String → String → Value → ℕ → Result (Completion Value) × Store
  unfolding complete_tx commit
  complete_job_at s job_id attempt_id result now_ms =
      commit s (complete_tx s.db job_id attempt_id result now_ms)
