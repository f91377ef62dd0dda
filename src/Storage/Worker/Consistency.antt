-- ===== src/Storage/Worker/Consistency.antt =====
-- crates/watchdog/src/storage_worker_queries_consistency.rs: a hand-off agrees with its job and
-- its attempt.
use ascension_watchdog.Prelude.{
  ℕ, Bool, true, false, ◌&&◌, ◌||◌, not, String, Option, none, some, str_eq,
}
use ascension_watchdog.Prelude.Tests.{◌==◌}
use ascension_watchdog.Error.{Result, ok, err, ensure, conflict, ◌>>=◌, ◌>>◌}
use ascension_watchdog.Storage.Db.{JobStatus, AttemptStatus}
use ascension_watchdog.Storage.Jobs.{JobRecord}
use ascension_watchdog.Storage.Jobs.Claim.{lineage_of}
use ascension_watchdog.Storage.Jobs.Select.{is_running, is_completed}
use ascension_watchdog.Storage.Launch.{is_some}
use ascension_watchdog.Storage.Worker.Types.{
  worker_handoff_operation, WorkerHandoffState, WorkerTerminalStatus, WorkerTerminalRecord,
}
use ascension_watchdog.Storage.Worker.Outside.{Outside}
use ascension_watchdog.Storage.Worker.Validate.{required}
use ascension_watchdog.Storage.Worker.Jobs.{RawAttempt, is_some_and}
use ascension_watchdog.Storage.Worker.Rows.{RawHandoff, is_text}

abbrev pub is_quarantined : JobStatus → Bool
is_quarantined JobStatus.quarantined = true
is_quarantined _ = false

abbrev is_failed : JobStatus → Bool
is_failed JobStatus.failed = true
is_failed _ = false

-- `==` on the texts of the states of an attempt.
abbrev pub is_attempt : AttemptStatus → AttemptStatus → Bool
is_attempt AttemptStatus.running AttemptStatus.running = true
is_attempt AttemptStatus.completed AttemptStatus.completed = true
is_attempt AttemptStatus.failed AttemptStatus.failed = true
is_attempt AttemptStatus.unknown AttemptStatus.unknown = true
is_attempt _ _ = false

abbrev same_time : Option ℕ → Option ℕ → Bool
same_time none none = true
same_time (some a) (some b) = a == b
same_time _ _ = false

abbrev reference_of : Option WorkerTerminalRecord → String
reference_of none = ""
reference_of (some terminal) = terminal.terminal_ref

abbrev status_of : Option WorkerTerminalRecord → Option WorkerTerminalStatus
status_of none = none
status_of (some terminal) = some terminal.status

module _ {Value Uuid : Type 0} (out : Outside Value Uuid) where
  -- The job and the attempt of a hand-off without an outcome.
  unfoldable pub validate_open :
      RawHandoff Value → JobRecord Value → RawAttempt → Option String → Result (Unit {0})
  validate_open raw job attempt completion_digest =
      ensure
        (not (
          not (is_running job.status || is_quarantined job.status)
          || is_some job.result
          || is_some completion_digest
          || is_running job.status && not (is_attempt attempt.status AttemptStatus.running)
          || is_quarantined job.status && not (is_attempt attempt.status AttemptStatus.unknown)
          || is_running job.status && is_some attempt.finished_at_ms
          || not (is_text job.worker_id raw.tuple.worker_owner_id)))
        conflict

  abbrev same_result : Option Value → Value → Bool
  same_result found expected = is_some_and (λ value. out.same_value value expected) found

  -- The stored result, parsed.
  abbrev expected_result : String → Result Value
  expected_result text = elim (out.codec.from_text text) [
    | ok value ↦ ok value
    | err _ ↦ err conflict
  ]

  unfoldable pub validate_completed :
      RawHandoff Value → JobRecord Value → RawAttempt → Option String → Result (Unit {0})
  validate_completed raw job attempt completion_digest = do
    text ← required raw.terminal_result
    expected ← expected_result text
    ensure
        (not (
          not (is_completed job.status)
          || not (is_attempt attempt.status AttemptStatus.completed)
          || not (same_time attempt.finished_at_ms raw.terminal_at_ms)
          || not (same_result job.result expected)
          || not (same_time job.completed_at_ms raw.terminal_at_ms)
          || is_some job.last_error
          || not (is_text job.worker_id raw.tuple.worker_owner_id)))
        conflict
    digest ← required completion_digest
    ensure (str_eq (out.codec.hex_digest text) digest) conflict

  unfoldable pub validate_failed :
      RawHandoff Value → JobRecord Value → RawAttempt → Option String → Result (Unit {0})
  validate_failed raw job attempt completion_digest = do
    text ← required raw.terminal_result
    expected ← expected_result text
    ensure
        (not (
          not (is_failed job.status)
          || not (is_attempt attempt.status AttemptStatus.failed)
          || not (same_time attempt.finished_at_ms raw.terminal_at_ms)
          || not (same_result job.result expected)
          || is_some job.completed_at_ms
          || is_some job.worker_id
          || not (is_text job.last_error (reference_of raw.terminal))
          || not (is_some completion_digest)))
        conflict
    digest ← required completion_digest
    ensure (str_eq (out.codec.hex_digest text) digest) conflict

  -- The match on the state and the status of the receipt.
  unfoldable pub validate_outcome :
      WorkerHandoffState
      → Option WorkerTerminalStatus
      → RawHandoff Value
      → JobRecord Value
      → RawAttempt
      → Option String
      → Result (Unit {0})
  unfolding validate_open validate_completed validate_failed
  validate_outcome WorkerHandoffState.prepared status = validate_open
  validate_outcome WorkerHandoffState.may_have_been_dispatched status = validate_open
  validate_outcome WorkerHandoffState.admitted status = validate_open
  validate_outcome WorkerHandoffState.completed status = validate_completed
  validate_outcome WorkerHandoffState.failed status = validate_failed
  validate_outcome WorkerHandoffState.acknowledged (some WorkerTerminalStatus.completed) =
      validate_completed
  validate_outcome WorkerHandoffState.acknowledged (some WorkerTerminalStatus.failed) =
      validate_failed
  validate_outcome WorkerHandoffState.acknowledged none = λ raw job attempt digest. err conflict
  validate_outcome WorkerHandoffState.rejected status = λ raw job attempt digest. ok tt

  unfoldable pub validate_handoff_job :
      RawHandoff Value → JobRecord Value → RawAttempt → Option String → Result (Unit {0})
  unfolding validate_outcome
  validate_handoff_job raw job attempt completion_digest = do
    ensure
        (str_eq attempt.id raw.tuple.attempt_id
          && str_eq attempt.job_id raw.tuple.job_id
          && attempt.sequence == raw.tuple.attempt_number
          && str_eq attempt.lineage (lineage_of raw.tuple.job_id raw.tuple.attempt_number)
          && is_text attempt.worker_id raw.tuple.worker_owner_id
          && job.attempt_count == raw.tuple.attempt_number
          && same_time job.claimed_at_ms (some raw.created_at_ms))
        conflict
    ensure (attempt.started_at_ms == raw.created_at_ms) conflict
    ensure
        (str_eq job.id raw.tuple.job_id
          && str_eq job.kind worker_handoff_operation
          && str_eq job.payload_digest raw.tuple.payload_digest
          && out.same_value job.payload out.empty_object)
        conflict
    validate_outcome raw.state (status_of raw.terminal) raw job attempt completion_digest
