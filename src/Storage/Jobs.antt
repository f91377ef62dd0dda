-- ===== src/Storage/Jobs.antt =====
-- crates/watchdog/src/storage_jobs.rs: the durable job queue. A job moves by whole transactions;
-- each takes the state of the tables and returns the state that it commits.
-- JSON and SHA-256 are the argument `Codec`; a fresh UUID is an argument of the call that draws it.
pub mod Select
pub mod Submit
pub mod Claim
pub mod Complete
pub mod Fail
pub mod Quarantine
pub mod Counts
pub mod Outcomes
pub mod History
pub mod Invariant
pub mod Hold
pub mod Oldest
pub mod Answers
pub mod Retry
pub mod Stored
pub mod Tests
use ascension_watchdog.Prelude.{
  ℕ, ◌+◌, Bool, true, false, ◌&&◌, ◌||◌, not, String, Option, none, some, List, [], ◌∷◌, ◌++◌,
  str_eq, min,
}
use ascension_watchdog.Prelude.Tests.{ltb, leb, ◌==◌, if◌then◌else◌}
use ascension_watchdog.Prelude.Word.{u32_max}
use ascension_watchdog.Prelude.Text.{byte_len}
use ascension_watchdog.Error.{
  as_sqlite, Result, ok, err, conflict, invalid_input, not_found, json, ◌>>=◌, ◌>>◌,
}
use ascension_watchdog.Storage.Db.{JobStatus, queued, completed, quarantined, JobRow}
use ascension_watchdog.Storage.Metadata.{sqlite_u32}

abbrev pub max_result_bytes : ℕ
max_result_bytes = 65536

unfoldable pub as_str : JobStatus → String
as_str JobStatus.queued = "queued"
as_str JobStatus.running = "running"
as_str JobStatus.completed = "completed"
as_str JobStatus.failed = "failed"
as_str JobStatus.quarantined = "quarantined"

unfoldable pub parse : String → Result JobStatus
parse value =
    if str_eq value "queued"
    then ok JobStatus.queued
    else if str_eq value "running"
    then ok JobStatus.running
    else if str_eq value "completed"
    then ok JobStatus.completed
    else if str_eq value "failed"
    then ok JobStatus.failed
    else if str_eq value "quarantined"
    then ok JobStatus.quarantined
    else err conflict

-- serde_json's printer and parser of a `Value`, whose output is UTF-8, and the SHA-256 of the
-- bytes of a text in hexadecimal.
pub record Codec (Value : Type 0) : Type 0 where
  pub to_text : Value → Result String
  pub from_text : String → Result Value
  pub hex_digest : String → String

pub record JobRecord (Value : Type 0) : Type 0 where
  pub id : String
  pub kind : String
  pub payload : Value
  pub payload_digest : String
  pub status : JobStatus
  pub created_at_ms : ℕ
  pub claimed_at_ms : Option ℕ
  pub completed_at_ms : Option ℕ
  pub attempt_count : ℕ
  pub next_retry_at_ms : Option ℕ
  pub last_error : Option String
  pub result : Option Value
  pub worker_id : Option String

pub record JobClaim (Value : Type 0) : Type 0 where
  pub job : JobRecord Value
  pub attempt_id : String
  pub attempt_number : ℕ
  pub lineage : String
  pub claimed_by : String

pub record Completion (Value : Type 0) : Type 0 where
  pub job_id : String
  pub attempt_id : String
  pub result : Value
  pub already_completed : Bool

module _ {Value : Type 0} (codec : Codec Value) where
  unfoldable pub validate_claim_payload : String → String → ℕ → Result Value
  validate_claim_payload text expected_digest bound =
      if ltb bound (byte_len text) || not (str_eq (codec.hex_digest text) expected_digest)
      then err conflict
      else elim (codec.from_text text) [ ok value ↦ ok value | err _ ↦ err conflict ]

  abbrev pub parse_optional : Option String → Result (Option Value)
  parse_optional none = ok none
  parse_optional (some text) = do value ← as_sqlite (codec.from_text text); ok (some value)

  unfoldable pub job_from_row : JobRow → Result (JobRecord Value)
  job_from_row row = do
    payload ← as_sqlite (codec.from_text row.payload)
    attempt_count ← sqlite_u32 row.attempt_count
    result ← parse_optional row.result
    ok (record {
      id = row.id;
      kind = row.kind;
      payload = payload;
      payload_digest = row.payload_digest;
      status = row.status;
      created_at_ms = row.created_at_ms;
      claimed_at_ms = row.claimed_at_ms;
      completed_at_ms = row.completed_at_ms;
      attempt_count = attempt_count;
      next_retry_at_ms = row.next_retry_at_ms;
      last_error = row.last_error;
      result = result;
      worker_id = row.worker_id;
    })
