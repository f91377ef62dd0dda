-- ===== src/Storage/Worker/Types.antt =====
-- crates/watchdog/src/storage_worker_types.rs and storage_worker_schema.rs: the identity and the
-- life cycle of a hand-off, and the rows of the tables of the worker.
use ascension_watchdog.Prelude.{ℕ, Bool, true, false, String, Option, str_eq}
use ascension_watchdog.Prelude.Tests.{if◌then◌else◌}
use ascension_watchdog.Error.{Result, ok, err, conflict}

abbrev pub max_worker_wire_integer : ℕ
max_worker_wire_integer = 9007199254740991

abbrev pub worker_handoff_schema_digest : String
worker_handoff_schema_digest = "bb13d15f6c0e4b8d0f58f7391fe4ba319ebc57a0a09effc06d73ea718bbff4cf"

abbrev pub worker_handoff_operation : String
worker_handoff_operation = "runtime_v3_episode"

abbrev pub worker_handoff_payload_digest : String
worker_handoff_payload_digest = "44136fa355b3678a1146ad16f7e8649e94fb4fc21fe77e8310c060f61caaff8a"

pub record WorkerBinding : Type 0 where
  pub deployment_id : String
  pub worker_owner_id : String
  pub worker_profile_digest : String
  pub release_digest : String
  pub config_digest : String
  pub schema_digest : String

pub data WorkerControlMode : Type 0 where
  running paused draining stopped : WorkerControlMode

unfoldable pub control_mode_as_str : WorkerControlMode → String
control_mode_as_str WorkerControlMode.running = "running"
control_mode_as_str WorkerControlMode.paused = "paused"
control_mode_as_str WorkerControlMode.draining = "draining"
control_mode_as_str WorkerControlMode.stopped = "stopped"

unfoldable pub control_mode_parse : String → Result WorkerControlMode
control_mode_parse value =
    if str_eq value "running"
    then ok WorkerControlMode.running
    else if str_eq value "paused"
    then ok WorkerControlMode.paused
    else if str_eq value "draining"
    then ok WorkerControlMode.draining
    else if str_eq value "stopped"
    then ok WorkerControlMode.stopped
    else err conflict

pub record WorkerControlWitness : Type 0 where
  pub deployment_id : String
  pub worker_owner_id : String
  pub worker_profile_digest : String
  pub watchdog_boot_id : String
  pub worker_boot_id : String
  pub mode : WorkerControlMode
  pub mode_sequence : ℕ

pub record WorkerClaimWitness : Type 0 where
  pub deployment_id : String
  pub worker_owner_id : String
  pub worker_profile_digest : String
  pub release_digest : String
  pub config_digest : String
  pub schema_digest : String
  pub watchdog_boot_id : String
  pub worker_boot_id : String
  pub mode_sequence : ℕ

pub data WorkerHandoffState : Type 0 where
  prepared may_have_been_dispatched admitted completed failed acknowledged rejected :
      WorkerHandoffState

unfoldable pub handoff_state_as_str : WorkerHandoffState → String
handoff_state_as_str WorkerHandoffState.prepared = "prepared"
handoff_state_as_str WorkerHandoffState.may_have_been_dispatched = "may_have_been_dispatched"
handoff_state_as_str WorkerHandoffState.admitted = "admitted"
handoff_state_as_str WorkerHandoffState.completed = "completed"
handoff_state_as_str WorkerHandoffState.failed = "failed"
handoff_state_as_str WorkerHandoffState.acknowledged = "acknowledged"
handoff_state_as_str WorkerHandoffState.rejected = "rejected"

unfoldable pub handoff_state_parse : String → Result WorkerHandoffState
handoff_state_parse value =
    if str_eq value "prepared"
    then ok WorkerHandoffState.prepared
    else if str_eq value "may_have_been_dispatched"
    then ok WorkerHandoffState.may_have_been_dispatched
    else if str_eq value "admitted"
    then ok WorkerHandoffState.admitted
    else if str_eq value "completed"
    then ok WorkerHandoffState.completed
    else if str_eq value "failed"
    then ok WorkerHandoffState.failed
    else if str_eq value "acknowledged"
    then ok WorkerHandoffState.acknowledged
    else if str_eq value "rejected"
    then ok WorkerHandoffState.rejected
    else err conflict

unfoldable pub is_terminal : WorkerHandoffState → Bool
is_terminal WorkerHandoffState.completed = true
is_terminal WorkerHandoffState.failed = true
is_terminal WorkerHandoffState.acknowledged = true
is_terminal _ = false

-- The columns of a hand-off that its preparation fixes.
pub record WorkerHandoffTuple : Type 0 where
  pub handoff_id : String
  pub deployment_id : String
  pub job_id : String
  pub attempt_id : String
  pub attempt_number : ℕ
  pub worker_owner_id : String
  pub worker_profile_digest : String
  pub run_id : String
  pub episode_id : String
  pub trajectory_id : String
  pub payload_digest : String

pub data WorkerTerminalStatus : Type 0 where
  completed failed : WorkerTerminalStatus

unfoldable pub terminal_status_as_str : WorkerTerminalStatus → String
terminal_status_as_str WorkerTerminalStatus.completed = "completed"
terminal_status_as_str WorkerTerminalStatus.failed = "failed"

unfoldable pub terminal_status_parse : String → Result WorkerTerminalStatus
terminal_status_parse value =
    if str_eq value "completed"
    then ok WorkerTerminalStatus.completed
    else if str_eq value "failed"
    then ok WorkerTerminalStatus.failed
    else err conflict

pub record WorkerTerminalReceipt : Type 0 where
  pub status : WorkerTerminalStatus
  pub checkpoint_sequence : ℕ
  pub terminal_ref : String
  pub result_digest : String

pub record WorkerTerminalRecord : Type 0 where
  pub status : WorkerTerminalStatus
  pub checkpoint_sequence : ℕ
  pub terminal_ref : String
  pub result_digest : String
  pub terminal_digest : String

pub record WorkerAcknowledgment : Type 0 where
  pub handoff_id : String
  pub terminal_digest : String
  pub already_acknowledged : Bool

-- `worker_bindings` and `worker_control`: at most one row each.
pub record BindingRow : Type 0 where
  pub binding : WorkerBinding
  pub updated_at_ms : ℕ

pub record ControlRow : Type 0 where
  pub control : WorkerControlWitness
  pub updated_at_ms : ℕ

-- `worker_handoffs`
pub record HandoffRow : Type 0 where
  pub tuple : WorkerHandoffTuple
  pub watchdog_boot_id : String
  pub worker_boot_id : String
  pub mode_sequence : ℕ
  pub operation : String
  pub parameters : String
  pub state : WorkerHandoffState
  pub terminal_status : Option WorkerTerminalStatus
  pub checkpoint_sequence : Option ℕ
  pub terminal_ref : Option String
  pub result_digest : Option String
  pub terminal_digest : Option String
  pub terminal_result : Option String
  pub ack_intent : Bool
  pub created_at_ms : ℕ
  pub updated_at_ms : ℕ
  pub dispatched_at_ms : Option ℕ
  pub admitted_at_ms : Option ℕ
  pub terminal_at_ms : Option ℕ
  pub acknowledged_at_ms : Option ℕ
