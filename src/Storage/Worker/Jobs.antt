-- ===== src/Storage/Worker/Jobs.antt =====
-- crates/watchdog/src/storage_worker_queries_jobs.rs: the bounded reading of the job and the
-- attempt of a hand-off.
use ascension_watchdog.Prelude.{
  ℕ, Bool, true, false, ◌&&◌, ◌||◌, not, String, Option, none, some, [], ◌∷◌, str_eq,
}
use ascension_watchdog.Prelude.Tests.{ltb, leb, if◌then◌else◌}
use ascension_watchdog.Prelude.Lists.{find_where}
use ascension_watchdog.Prelude.Word.{i64_max}
use ascension_watchdog.Prelude.Text.{byte_len, has_zero}
use ascension_watchdog.Error.{
  Result, ok, err, ensure, as_sqlite, invalid_input, sqlite, ◌>>=◌, ◌>>◌,
}
use ascension_watchdog.Storage.Db.{AttemptStatus, JobRow, AttemptRow, Db}
use ascension_watchdog.Storage.Metadata.{validate_name, sqlite_u32}
use ascension_watchdog.Storage.Jobs.{JobRecord, parse_optional}
use ascension_watchdog.Storage.Jobs.Select.{is_queued, is_running, is_completed, job_row}
use ascension_watchdog.Storage.Launch.{is_some}
use ascension_watchdog.Storage.Worker.Outside.{Outside}
use ascension_watchdog.Storage.Worker.Validate.{each, validate_digest_value}
use ascension_watchdog.Storage.Worker.Control.{bounded_required_text, optional}

-- `CASE WHEN column IS NULL THEN NULL WHEN length(..) <= n THEN column ELSE marker END`
abbrev pub or_marker : ℕ → String → Option String → Option String
or_marker n marker none = none
or_marker n marker (some value) = some (if leb (byte_len value) n then value else marker)

-- A check of a value that is there.
abbrev pub on_some {ℓ} : {A : Type ℓ} → (A → Result (Unit {0})) → Option A → Result (Unit {0})
on_some check none = ok tt
on_some check (some value) = check value

abbrev pub is_some_and {ℓ} : {A : Type ℓ} → (A → Bool) → Option A → Bool
is_some_and test none = false
is_some_and test (some value) = test value

unfoldable pub job_bound : ℕ → Result ℕ
job_bound max_payload_bytes =
    if leb max_payload_bytes i64_max then ok max_payload_bytes else err invalid_input

-- `completed < claimed`, where both are there.
abbrev precedes : Option ℕ → Option ℕ → Bool
precedes (some a) (some b) = ltb a b
precedes _ _ = false

-- The timestamps and the evidence of a job are in order.
unfoldable pub validate_job_phases : JobRow → Result (Unit {0})
validate_job_phases row = do
  ensure
      (not (
        is_some_and (λ at. ltb at row.created_at_ms) row.claimed_at_ms
        || is_some_and (λ at. ltb at row.created_at_ms) row.completed_at_ms
        || precedes row.completed_at_ms row.claimed_at_ms))
      sqlite
  ensure (is_queued row.status || not (is_some row.next_retry_at_ms)) sqlite
  ensure (not (is_running row.status) || is_some row.claimed_at_ms) sqlite
  ensure
      (not (is_completed row.status)
        || is_some row.claimed_at_ms && is_some row.completed_at_ms && is_some row.result)
      sqlite

abbrev pub same_presence : Bool → Bool → Bool
same_presence true b = b
same_presence false b = not b

module _ {Value Uuid : Type 0} (out : Outside Value Uuid) where
  abbrev validate_result_digest : Option String → Option String → Result (Unit {0})
  validate_result_digest (some text) (some digest) = do
    validate_digest_value digest
    ensure (str_eq (out.codec.hex_digest text) digest) sqlite
  validate_result_digest _ _ = ok tt

  -- The record of a row, and its completion digest.
  unfoldable pub bounded_job_from_row : ℕ → JobRow → Result (JobRecord Value × Option String)
  unfolding validate_job_phases
  bounded_job_from_row bound row =
      let result_text = or_marker 65536 "\u{1}" row.result in
      let completion_digest = or_marker 64 "\u{1}" row.completion_digest in
      let last_error = or_marker 16384 "\0" row.last_error in
      let worker_id = or_marker 128 "\u{1}" row.worker_id in
      as_sqlite (do
        each (
            bounded_required_text 128 row.id
            ∷ bounded_required_text 128 row.kind
            ∷ bounded_required_text bound row.payload
            ∷ bounded_required_text 64 row.payload_digest
            ∷ validate_name row.id 128
            ∷ validate_name row.kind 128
            ∷ validate_digest_value row.payload_digest
            ∷ [])
        ensure (str_eq (out.codec.hex_digest row.payload) row.payload_digest) sqlite
        payload ← out.codec.from_text row.payload
        on_some (λ text. ensure (not (has_zero text)) sqlite) last_error
        on_some (λ text. validate_name text 128) worker_id
        ensure (same_presence (is_some completion_digest) (is_some result_text)) sqlite
        result ← parse_optional out.codec result_text
        validate_result_digest result_text completion_digest
        validate_job_phases row
        attempt_count ← sqlite_u32 row.attempt_count
        ok (
          record {
            id = row.id;
            kind = row.kind;
            payload = payload;
            payload_digest = row.payload_digest;
            status = row.status;
            created_at_ms = row.created_at_ms;
            claimed_at_ms = row.claimed_at_ms;
            completed_at_ms = row.completed_at_ms;
            attempt_count = attempt_count;
            next_retry_at_ms = row.next_retry_at_ms;
            last_error = last_error;
            result = result;
            worker_id = worker_id;
          },
          completion_digest,
        ))

  -- `load_job_conn` and `load_job_tx`
  unfoldable pub load_job : Db → String → ℕ → Result (Option (JobRecord Value × Option String))
  unfolding bounded_job_from_row job_bound job_row
  load_job db job_id max_payload_bytes = do
    bound ← job_bound max_payload_bytes
    optional (bounded_job_from_row bound) (job_row db job_id)

pub record RawAttempt : Type 0 where
  pub id : String
  pub job_id : String
  pub sequence : ℕ
  pub lineage : String
  pub status : AttemptStatus
  pub started_at_ms : ℕ
  pub finished_at_ms : Option ℕ
  pub worker_id : Option String

unfoldable pub raw_attempt_from_row : AttemptRow → Result RawAttempt
raw_attempt_from_row row =
    let worker_id = or_marker 128 "\u{1}" row.worker_id in
    as_sqlite (do
      each (
          bounded_required_text 128 row.id
          ∷ bounded_required_text 128 row.job_id
          ∷ bounded_required_text 256 row.lineage
          ∷ on_some (λ text. validate_name text 128) worker_id
          ∷ [])
      sequence ← sqlite_u32 row.sequence
      ensure (not (has_zero row.lineage)) sqlite
      ensure (not (is_some_and (λ at. ltb at row.started_at_ms) row.finished_at_ms)) sqlite
      ok (record {
        id = row.id;
        job_id = row.job_id;
        sequence = sequence;
        lineage = row.lineage;
        status = row.status;
        started_at_ms = row.started_at_ms;
        finished_at_ms = row.finished_at_ms;
        worker_id = worker_id;
      }))

abbrev pub attempt_of_id : Db → String → Option AttemptRow
attempt_of_id db attempt_id = find_where (λ row. str_eq row.id attempt_id) db.attempts

-- `load_attempt_conn` and `load_attempt_tx`
unfoldable pub load_attempt : Db → String → Result (Option RawAttempt)
unfolding raw_attempt_from_row
load_attempt db attempt_id = optional raw_attempt_from_row (attempt_of_id db attempt_id)
