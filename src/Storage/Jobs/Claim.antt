-- ===== src/Storage/Jobs/Claim.antt =====
-- crates/watchdog/src/storage_jobs.rs: `claim_next_job`.
use Prim.Native.String
use ascension_watchdog.Prelude.{
  ℕ, ◌+◌, Bool, true, false, ◌&&◌, ◌||◌, not, String, Option, none, some, [], ◌∷◌, ◌++◌, str_eq,
}
use ascension_watchdog.Prelude.Tests.{ltb, leb, ◌==◌, if◌then◌else◌}
use ascension_watchdog.Prelude.Lists.{count_where, keep_where, update_where}
use ascension_watchdog.Prelude.Word.{u32_max, i64_max}
use ascension_watchdog.Prelude.Text.{to_string}
use ascension_watchdog.Config.{DesiredMode}
use ascension_watchdog.Error.{Result, ok, err, conflict, invalid_input, sqlite, ◌>>=◌, ◌>>◌}
use ascension_watchdog.Storage.Db.{JobStatus, AttemptStatus, JobRow, AttemptRow, Db, Store, commit}
use ascension_watchdog.Storage.Metadata.{
  validate_name, sqlite_timestamp, insert_audit_tx, desired_mode_from,
}
use ascension_watchdog.Storage.Jobs.{Codec, JobClaim, validate_claim_payload}
use ascension_watchdog.Storage.Jobs.Select.{is_queued, is_ready, oldest, unresolved_attempts}
use ascension_watchdog.Prelude.Text.{substr}

abbrev pub is_running_mode : DesiredMode → Bool
is_running_mode DesiredMode.running = true
is_running_mode _ = false

-- `u32::try_from(attempt_count)?.checked_add(1)`
unfoldable pub next_attempt_number : ℕ → Result ℕ
next_attempt_number attempt_count =
    if leb (attempt_count + 1) u32_max then ok (attempt_count + 1) else err conflict

-- `INSERT INTO attempts`, refused on a used `id` or a used pair of job and sequence.
unfoldable pub insert_attempt_row : Db → AttemptRow → Result Db
insert_attempt_row db row =
    let taken = λ (other : AttemptRow).
      str_eq other.id row.id || str_eq other.job_id row.job_id && other.sequence == row.sequence in
    if count_where taken db.attempts == 0
    then ok (record db { attempts = db.attempts ++ row ∷ [] })
    else err sqlite

-- `WHERE id=? AND status='queued'`
abbrev pub is_claimable : String → JobRow → Bool
is_claimable id row = str_eq row.id id && is_queued row.status

abbrev pub claimed : String → ℕ → ℕ → JobRow → JobRow
claimed worker_id timestamp number row = record row {
  status = JobStatus.running;
  claimed_at_ms = some timestamp;
  attempt_count = number;
  worker_id = some worker_id;
}

abbrev pub lineage_of : String → ℕ → String
lineage_of id number = String.◌++◌ id (String.◌++◌ ":" (to_string number))

abbrev pub claimed_attempt : String → JobRow → String → ℕ → ℕ → AttemptRow
claimed_attempt attempt_id row worker_id timestamp number = record {
  id = attempt_id;
  job_id = row.id;
  sequence = number;
  lineage = lineage_of row.id number;
  status = AttemptStatus.running;
  started_at_ms = timestamp;
  finished_at_ms = none;
  worker_id = some worker_id;
  outcome = none;
}

-- The writes of a claim of `row`, once it is chosen and checked.
unfoldable pub claim_writes : Db → JobRow → String → String → ℕ → ℕ → Result Db
unfolding insert_attempt_row
claim_writes db row worker_id attempt_id timestamp number = do
  inserted ←
      insert_attempt_row
        (record db {
          jobs = update_where (is_claimable row.id) (claimed worker_id timestamp number) db.jobs;
        })
        (claimed_attempt attempt_id row worker_id timestamp number)
  insert_audit_tx inserted "job_claimed" (String.◌++◌ row.id (String.◌++◌ ":" attempt_id)) timestamp

-- `max_payload_bytes.checked_add(1)` as an `i64`.
unfoldable pub payload_read_limit : ℕ → Result ℕ
payload_read_limit max_payload_bytes =
    if leb (max_payload_bytes + 1) i64_max then ok (max_payload_bytes + 1) else err invalid_input

module _ {Value : Type 0} (codec : Codec Value) where
  abbrev pub claim_of : JobRow → Value → String → String → ℕ → ℕ → JobClaim Value
  claim_of row payload worker_id attempt_id timestamp number = record {
    job = record {
      id = row.id;
      kind = row.kind;
      payload = payload;
      payload_digest = row.payload_digest;
      status = JobStatus.running;
      created_at_ms = row.created_at_ms;
      claimed_at_ms = some timestamp;
      completed_at_ms = none;
      attempt_count = number;
      next_retry_at_ms = none;
      last_error = none;
      result = none;
      worker_id = some worker_id;
    };
    attempt_id = attempt_id;
    attempt_number = number;
    lineage = lineage_of row.id number;
    claimed_by = worker_id;
  }

  -- What follows the choice of a row. `changed` other than 1 rolls back and claims nothing.
  unfoldable pub claim_row :
      Db → ℕ → ℕ → Option JobRow → String → String → ℕ → Result (Option (JobClaim Value) × Db)
  unfolding next_attempt_number claim_writes
  claim_row db limit bound none worker_id attempt_id timestamp = ok (none, db)
  claim_row db limit bound (some row) worker_id attempt_id timestamp = do
    validate_name row.id 128
    validate_name row.kind 128
    payload ← validate_claim_payload codec (substr limit row.payload) row.payload_digest bound
    number ← next_attempt_number row.attempt_count
    if not (count_where (is_claimable row.id) db.jobs == 1) then ok (none, db) else do
      written ← claim_writes db row worker_id attempt_id timestamp number
      ok (some (claim_of row payload worker_id attempt_id timestamp number), written)

  unfoldable pub claim_tx : Store → String → ℕ → String → Result (Option (JobClaim Value) × Db)
  unfolding claim_row
  claim_tx s worker_id now_ms attempt_id = do
    validate_name worker_id 128
    limit ← payload_read_limit s.max_payload_bytes
    mode ← desired_mode_from s.db
    if not (is_running_mode mode) || ltb 0 (unresolved_attempts s.db) then ok (none, s.db) else do
      timestamp ← sqlite_timestamp now_ms
      claim_row s.db limit s.max_payload_bytes (oldest (keep_where (is_ready timestamp) s.db.jobs))
          worker_id attempt_id timestamp

  -- `claim_next_job`, where `attempt_id` is the UUID that it draws.
  unfoldable pub claim_next_job :
      Store → String → ℕ → String → Result (Option (JobClaim Value)) × Store
  unfolding claim_tx commit
  claim_next_job s worker_id now_ms attempt_id = commit s (claim_tx s worker_id now_ms attempt_id)
