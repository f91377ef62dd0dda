-- ===== src/Storage/Worker/Complete.antt =====
-- crates/watchdog/src/storage_worker_completion_terminal.rs: the terminal completion of a hand-off
-- with its job and its attempt.
use Prim.Native.String
use ascension_watchdog.Prelude.{
  ℕ, Bool, true, false, ◌&&◌, ◌||◌, String, Option, none, some, str_eq,
}
use ascension_watchdog.Prelude.Tests.{leb, ◌==◌, if◌then◌else◌}
use ascension_watchdog.Prelude.Lists.{count_where, update_where}
use ascension_watchdog.Error.{
  Result, ok, err, ensure, conflict, invalid_input, not_found, ◌>>=◌, ◌>>◌,
}
use ascension_watchdog.Storage.Db.{JobStatus, AttemptStatus, JobRow, AttemptRow, Db, Store, commit}
use ascension_watchdog.Storage.Metadata.{validate_name, sqlite_timestamp, insert_audit_tx}
use ascension_watchdog.Storage.Jobs.Select.{job_row, attempt_row}
use ascension_watchdog.Storage.Worker.Types.{
  max_worker_wire_integer, WorkerHandoffState, WorkerHandoffTuple, WorkerTerminalStatus,
  WorkerTerminalReceipt, WorkerTerminalRecord, WorkerControlWitness, HandoffRow, is_terminal,
  terminal_status_as_str,
}
use ascension_watchdog.Storage.Worker.Outside.{Outside}
use ascension_watchdog.Storage.Worker.Validate.{required, validate_digest_value, validate_tuple}
use ascension_watchdog.Storage.Worker.Rows.{
  RawHandoff, max_terminal_ref_bytes, terminal_digest, compact_terminal_result,
}
use ascension_watchdog.Storage.Worker.Consistency.{is_attempt}
use ascension_watchdog.Storage.Worker.Queries.{
  WorkerHandoff, worker_handoff, validate_handoff_transition_time,
  validate_current_worker_incarnation_tx, validate_current_worker_recovery_tx,
}
use ascension_watchdog.Storage.Worker.Dispatch.{is_handoff_in, update_handoff, current_handoff}

pub data TerminalAuthority : Type 0 where
  original_incarnation : TerminalAuthority
  current_recovery : WorkerControlWitness → TerminalAuthority

pub record WorkerCompletion (Value : Type 0) : Type 0 where
  pub handoff : WorkerHandoff Value
  pub terminal_digest : String
  pub already_completed : Bool

unfoldable pub validate_terminal_receipt : WorkerTerminalReceipt → Result (Unit {0})
validate_terminal_receipt receipt = do
  validate_name receipt.terminal_ref max_terminal_ref_bytes
  validate_digest_value receipt.result_digest
  ensure (leb receipt.checkpoint_sequence max_worker_wire_integer) invalid_input

-- `state IN ('may_have_been_dispatched','admitted')`
abbrev pub is_executing : WorkerHandoffState → Bool
is_executing WorkerHandoffState.may_have_been_dispatched = true
is_executing WorkerHandoffState.admitted = true
is_executing _ = false

-- The states of the job and of the attempt that a completion ends.
abbrev pub is_active_pair : JobStatus → AttemptStatus → Bool
is_active_pair JobStatus.running AttemptStatus.running = true
is_active_pair _ _ = false

abbrev pub is_quarantined_pair : JobStatus → AttemptStatus → Bool
is_quarantined_pair JobStatus.quarantined AttemptStatus.unknown = true
is_quarantined_pair _ _ = false

-- `==` on the texts of the states of a job.
abbrev pub is_job_status : JobStatus → JobStatus → Bool
is_job_status JobStatus.queued JobStatus.queued = true
is_job_status JobStatus.running JobStatus.running = true
is_job_status JobStatus.completed JobStatus.completed = true
is_job_status JobStatus.failed JobStatus.failed = true
is_job_status JobStatus.quarantined JobStatus.quarantined = true
is_job_status _ _ = false

-- `WHERE id=? AND status=?`
abbrev pub is_job_in : String → JobStatus → JobRow → Bool
is_job_in id status row = str_eq row.id id && is_job_status row.status status

-- `WHERE id=? AND job_id=? AND status=?`
abbrev pub is_attempt_in : String → String → AttemptStatus → AttemptRow → Bool
is_attempt_in id job_id status row =
    str_eq row.id id && str_eq row.job_id job_id && is_attempt row.status status

abbrev attempt_status_of : WorkerTerminalStatus → AttemptStatus
attempt_status_of WorkerTerminalStatus.completed = AttemptStatus.completed
attempt_status_of WorkerTerminalStatus.failed = AttemptStatus.failed

abbrev outcome_of : WorkerTerminalStatus → String
outcome_of WorkerTerminalStatus.completed = "worker_completed"
outcome_of WorkerTerminalStatus.failed = "worker_failed"

abbrev pub finished_attempt : WorkerTerminalStatus → ℕ → AttemptRow → AttemptRow
finished_attempt status now row = record row {
  status = attempt_status_of status;
  finished_at_ms = some now;
  outcome = some (outcome_of status);
}

-- The two updates of a job.
abbrev pub finished_job : WorkerTerminalStatus → String → String → String → ℕ → JobRow → JobRow
finished_job WorkerTerminalStatus.completed reference text digest now row = record row {
  status = JobStatus.completed;
  completed_at_ms = some now;
  result = some text;
  completion_digest = some digest;
  last_error = none;
}
finished_job WorkerTerminalStatus.failed reference text digest now row = record row {
  status = JobStatus.failed;
  result = some text;
  completion_digest = some digest;
  last_error = some reference;
  worker_id = none;
}

abbrev pub terminal_state_of : WorkerTerminalStatus → WorkerHandoffState
terminal_state_of WorkerTerminalStatus.completed = WorkerHandoffState.completed
terminal_state_of WorkerTerminalStatus.failed = WorkerHandoffState.failed

abbrev pub finished_handoff :
    WorkerTerminalReceipt → ℕ → String → String → ℕ → HandoffRow → HandoffRow
finished_handoff receipt sequence digest text now row = record row {
  state = terminal_state_of receipt.status;
  terminal_status = some receipt.status;
  checkpoint_sequence = some sequence;
  terminal_ref = some receipt.terminal_ref;
  result_digest = some receipt.result_digest;
  terminal_digest = some digest;
  terminal_result = some text;
  ack_intent = true;
  terminal_at_ms = some now;
  updated_at_ms = now;
}

abbrev pub job_status_of : Option JobRow → Result JobStatus
job_status_of none = err not_found
job_status_of (some row) = ok row.status

abbrev pub attempt_state_of : Option AttemptRow → Result AttemptStatus
attempt_state_of none = err not_found
attempt_state_of (some row) = ok row.status

-- The update of the attempt and of the job, each of exactly one row.
unfoldable pub finish_rows :
    Db
    → WorkerHandoffTuple
    → JobStatus
    → AttemptStatus
    → WorkerTerminalReceipt
    → String
    → String
    → ℕ
    → Result Db
finish_rows db tuple job_status attempt_status receipt text digest now = do
  ensure (count_where (is_attempt_in tuple.attempt_id tuple.job_id attempt_status) db.attempts == 1)
      conflict
  ensure (count_where (is_job_in tuple.job_id job_status) db.jobs == 1) conflict
  ok (record db {
    attempts =
        update_where (is_attempt_in tuple.attempt_id tuple.job_id attempt_status)
          (finished_attempt receipt.status now) db.attempts;
    jobs =
        update_where (is_job_in tuple.job_id job_status)
          (finished_job receipt.status receipt.terminal_ref text digest now) db.jobs;
  })

-- The writes of a completion.
unfoldable pub finish_writes :
    Db → WorkerHandoffTuple → WorkerTerminalReceipt → String → String → String → ℕ → Result Db
unfolding finish_rows update_handoff job_row attempt_row
finish_writes db tuple receipt text compact_digest digest now_ms = do
  job_status ← job_status_of (job_row db tuple.job_id)
  attempt_status ← attempt_state_of (attempt_row db tuple.attempt_id tuple.job_id)
  ensure (is_active_pair job_status attempt_status || is_quarantined_pair job_status attempt_status)
      conflict
  now ← sqlite_timestamp now_ms
  ended ← finish_rows db tuple job_status attempt_status receipt text compact_digest now
  sequence ← sqlite_timestamp receipt.checkpoint_sequence
  updated ←
      update_handoff ended (is_handoff_in tuple.handoff_id is_executing)
        (finished_handoff receipt sequence digest text now)
  insert_audit_tx updated "worker_handoff_terminal_committed"
      (String.◌++◌ tuple.handoff_id (String.◌++◌ ":" (terminal_status_as_str receipt.status)))
      now_ms

module _ {Value Uuid : Type 0} (out : Outside Value Uuid) where
  -- The authority is checked against the durable control: of a recovery always, of the original
  -- incarnation where the hand-off is unresolved.
  abbrev pub check_recovery : Db → RawHandoff Value → TerminalAuthority → Result (Unit {0})
  check_recovery db current original_incarnation = ok tt
  check_recovery db current (current_recovery recovery) =
      validate_current_worker_recovery_tx out db current recovery

  abbrev pub check_original : Db → RawHandoff Value → TerminalAuthority → Result (Unit {0})
  check_original db current original_incarnation =
      validate_current_worker_incarnation_tx out db current
  check_original db current (current_recovery recovery) = ok tt

  -- A hand-off that is already terminal: the same receipt is answered again.
  unfoldable pub repeat_receipt :
      Db → Option WorkerTerminalRecord → WorkerTerminalReceipt → String → Result (Bool × Db)
  repeat_receipt db none receipt expected = err conflict
  repeat_receipt db (some existing) receipt expected =
      if str_eq existing.terminal_digest expected
        && str_eq existing.result_digest receipt.result_digest
      then ok (true, db)
      else err conflict

  unfoldable pub finish_current :
      Db
      → RawHandoff Value
      → WorkerHandoffTuple
      → WorkerTerminalReceipt
      → TerminalAuthority
      → String
      → String
      → String
      → ℕ
      → Result (Bool × Db)
  unfolding repeat_receipt finish_writes is_terminal
  finish_current db current tuple receipt authority text compact_digest digest now_ms =
      if is_terminal current.state then repeat_receipt db current.terminal receipt digest else do
        check_original db current authority
        ensure (is_executing current.state) conflict
        validate_handoff_transition_time out current now_ms "terminal"
        written ← finish_writes db tuple receipt text compact_digest digest now_ms
        ok (false, written)

  -- The answer is the digest of the receipt, and whether it was there already.
  unfoldable pub complete_handoff_tx :
      Store
      → WorkerHandoffTuple
      → WorkerTerminalReceipt
      → TerminalAuthority
      → ℕ
      → Result ((String × Bool) × Db)
  unfolding current_handoff finish_current validate_terminal_receipt
  complete_handoff_tx s tuple receipt authority now_ms = do
    validate_tuple out tuple
    validate_terminal_receipt receipt
    compact ← compact_terminal_result out receipt
    current ← current_handoff out s tuple
    check_recovery s.db current authority
    digest ← terminal_digest out tuple receipt
    finished ← finish_current s.db current tuple receipt authority compact.0 compact.1 digest now_ms
    ok ((digest, finished.0), finished.1)

  abbrev pub then_completion :
      String → Result (String × Bool) × Store → Result (WorkerCompletion Value) × Store
  then_completion id (err error, s) = (err error, s)
  then_completion id (ok (digest, already), s) = (
    do
      found ← worker_handoff out s id
      handoff ← required found
      ok (record { handoff = handoff; terminal_digest = digest; already_completed = already }),
    s,
  )

  unfoldable pub complete_worker_handoff_with_authority_at :
      Store
      → WorkerHandoffTuple
      → WorkerTerminalReceipt
      → TerminalAuthority
      → ℕ
      → Result (WorkerCompletion Value) × Store
  unfolding complete_handoff_tx commit worker_handoff
  complete_worker_handoff_with_authority_at s tuple receipt authority now_ms =
      then_completion tuple.handoff_id
        (commit s (complete_handoff_tx s tuple receipt authority now_ms))

  unfoldable pub complete_worker_handoff_at :
      Store
      → WorkerHandoffTuple
      → WorkerTerminalReceipt
      → ℕ
      → Result (WorkerCompletion Value) × Store
  unfolding complete_worker_handoff_with_authority_at
  complete_worker_handoff_at s tuple receipt =
      complete_worker_handoff_with_authority_at s tuple receipt original_incarnation

  unfoldable pub complete_worker_handoff_with_recovery_at :
      Store
      → WorkerHandoffTuple
      → WorkerTerminalReceipt
      → WorkerControlWitness
      → ℕ
      → Result (WorkerCompletion Value) × Store
  unfolding complete_worker_handoff_with_authority_at
  complete_worker_handoff_with_recovery_at s tuple receipt recovery =
      complete_worker_handoff_with_authority_at s tuple receipt (current_recovery recovery)
