-- ===== src/Storage/Worker/Queries.antt =====
-- crates/watchdog/src/storage_worker_queries_handoff.rs, and of its siblings the checks that a
-- loaded hand-off passes before it moves.
use ascension_watchdog.Prelude.{
  ℕ, Bool, true, false, ◌&&◌, ◌||◌, String, Option, none, some, List, str_eq,
}
use ascension_watchdog.Prelude.Tests.{ltb, leb, ◌==◌, if◌then◌else◌}
use ascension_watchdog.Prelude.Earliest.{earliest_by}
use ascension_watchdog.Prelude.Lists.{find_where, keep_where}
use ascension_watchdog.Prelude.Text.{byte_len}
use ascension_watchdog.Error.{Result, ok, err, ensure, conflict, not_found, sqlite, ◌>>=◌, ◌>>◌}
use ascension_watchdog.Storage.Db.{Db, Store}
use ascension_watchdog.Storage.Jobs.{JobRecord}
use ascension_watchdog.Storage.Jobs.Select.{text_before}
use ascension_watchdog.Storage.Worker.Types.{
  WorkerHandoffState, WorkerHandoffTuple, WorkerTerminalRecord, WorkerBinding, WorkerControlMode,
  WorkerControlWitness, HandoffRow,
}
use ascension_watchdog.Storage.Worker.Outside.{Outside}
use ascension_watchdog.Storage.Worker.Validate.{
  required, validate_tuple, validate_uuid4, validate_control, validate_control_against_binding,
}
use ascension_watchdog.Storage.Worker.Control.{
  optional, binding_from_tx, control_from_tx, require_running_desired, same_control, same_mode,
}
use ascension_watchdog.Storage.Worker.Jobs.{load_job, load_attempt}
use ascension_watchdog.Storage.Worker.Rows.{RawHandoff, raw_handoff_from_row}
use ascension_watchdog.Storage.Worker.Consistency.{validate_handoff_job}

-- The columns of `WorkerHandoffTuple` are one field; `tuple()` is that field.
pub record WorkerHandoff (Value : Type 0) : Type 0 where
  pub tuple : WorkerHandoffTuple
  pub watchdog_boot_id : String
  pub worker_boot_id : String
  pub mode_sequence : ℕ
  pub operation : String
  pub parameters : Value
  pub state : WorkerHandoffState
  pub job : JobRecord Value
  pub terminal : Option WorkerTerminalRecord
  pub created_at_ms : ℕ
  pub updated_at_ms : ℕ

abbrev pub is_handoff : String → HandoffRow → Bool
is_handoff id row = str_eq row.tuple.handoff_id id

-- The row of a hand-off, by its primary key.
abbrev pub handoff_row : Db → String → Option HandoffRow
handoff_row db id = find_where (is_handoff id) db.worker_handoffs

unfoldable pub same_tuple : WorkerHandoffTuple → WorkerHandoffTuple → Bool
same_tuple a b =
    str_eq a.handoff_id b.handoff_id
    && str_eq a.deployment_id b.deployment_id
    && str_eq a.job_id b.job_id
    && str_eq a.attempt_id b.attempt_id
    && a.attempt_number == b.attempt_number
    && str_eq a.worker_owner_id b.worker_owner_id
    && str_eq a.worker_profile_digest b.worker_profile_digest
    && str_eq a.run_id b.run_id
    && str_eq a.episode_id b.episode_id
    && str_eq a.trajectory_id b.trajectory_id
    && str_eq a.payload_digest b.payload_digest

abbrev pub is_attempt_handoff : WorkerHandoffTuple → HandoffRow → Bool
is_attempt_handoff tuple row =
    str_eq row.tuple.job_id tuple.job_id && str_eq row.tuple.attempt_id tuple.attempt_id

-- A hand-off that is not found: its attempt may have another.
unfoldable pub missing_handoff : {A : Type 0} → Option HandoffRow → Result A
missing_handoff none = err not_found
missing_handoff (some other) =
    if leb (byte_len other.tuple.handoff_id) 36 then err conflict else err sqlite

-- `state NOT IN ('acknowledged','rejected')`
abbrev pub is_pending : HandoffRow → Bool
is_pending row = elim row.state [
  | WorkerHandoffState.acknowledged ↦ false
  | WorkerHandoffState.rejected ↦ false
  | _ ↦ true
]

-- `ORDER BY created_at_ms, handoff_id`
abbrev pub handoff_before : HandoffRow → HandoffRow → Bool
handoff_before a b =
    ltb a.created_at_ms b.created_at_ms
    || a.created_at_ms == b.created_at_ms && text_before a.tuple.handoff_id b.tuple.handoff_id

unfoldable pub oldest_handoff : List HandoffRow → Option HandoffRow
oldest_handoff rows = earliest_by handoff_before rows

module _ {Value Uuid : Type 0} (out : Outside Value Uuid) where
  -- `load_handoff_tx`, and the first step of `load_handoff`
  unfoldable pub load_handoff_tx : Db → String → Result (Option (RawHandoff Value))
  unfolding raw_handoff_from_row
  load_handoff_tx db handoff_id = optional (raw_handoff_from_row out) (handoff_row db handoff_id)

  -- The job of a loaded hand-off, which agrees with it.
  unfoldable pub checked_job : Db → ℕ → RawHandoff Value → Result (JobRecord Value)
  unfolding validate_handoff_job load_job load_attempt
  checked_job db bound raw = do
    found ← load_job out db raw.tuple.job_id bound
    job ← required found
    attempted ← load_attempt db raw.tuple.attempt_id
    attempt ← required attempted
    validate_handoff_job out raw job.0 attempt job.1
    ok job.0

  unfoldable pub require_handoff_tx : Db → WorkerHandoffTuple → ℕ → Result (RawHandoff Value)
  unfolding load_handoff_tx checked_job missing_handoff
  require_handoff_tx db tuple bound = do
    found ← load_handoff_tx db tuple.handoff_id
    elim found [
      | some raw ↦ do job ← checked_job db bound raw; ok raw
      | none ↦ missing_handoff (find_where (is_attempt_handoff tuple) db.worker_handoffs)
    ]

  unfoldable pub handoff_from_raw : Db → ℕ → RawHandoff Value → Result (WorkerHandoff Value)
  unfolding checked_job
  handoff_from_raw db bound raw = do
    job ← checked_job db bound raw
    ok (record {
      tuple = raw.tuple;
      watchdog_boot_id = raw.watchdog_boot_id;
      worker_boot_id = raw.worker_boot_id;
      mode_sequence = raw.mode_sequence;
      operation = raw.operation;
      parameters = raw.parameters;
      state = raw.state;
      job = job;
      terminal = raw.terminal;
      created_at_ms = raw.created_at_ms;
      updated_at_ms = raw.updated_at_ms;
    })

  unfoldable pub worker_handoff : Store → String → Result (Option (WorkerHandoff Value))
  unfolding load_handoff_tx handoff_from_raw
  worker_handoff s handoff_id = do
    validate_uuid4 out handoff_id
    found ← load_handoff_tx s.db handoff_id
    optional (handoff_from_raw s.db s.max_payload_bytes) found

  unfoldable pub lookup_worker_handoff :
      Store → WorkerHandoffTuple → Result (Option (WorkerHandoff Value))
  unfolding worker_handoff same_tuple
  lookup_worker_handoff s tuple = do
    validate_tuple out tuple
    found ← worker_handoff s tuple.handoff_id
    elim found [
      | none ↦ ok none
      | some handoff ↦ if same_tuple handoff.tuple tuple then ok (some handoff) else err conflict
    ]

  -- The oldest hand-off of some that is pending, read by its identifier.
  unfoldable pub read_oldest : Store → Option HandoffRow → Result (Option (WorkerHandoff Value))
  unfolding worker_handoff
  read_oldest s none = ok none
  read_oldest s (some row) = do
    ensure (byte_len row.tuple.handoff_id == 36) sqlite
    found ← worker_handoff s row.tuple.handoff_id
    handoff ← required found
    ok (some handoff)

  unfoldable pub next_worker_handoff_for_reconciliation :
      Store → Result (Option (WorkerHandoff Value))
  unfolding read_oldest oldest_handoff
  next_worker_handoff_for_reconciliation s =
      read_oldest s (oldest_handoff (keep_where is_pending s.db.worker_handoffs))

  unfoldable pub ensure_tuple_matches : RawHandoff Value → WorkerHandoffTuple → Result (Unit {0})
  unfolding same_tuple
  ensure_tuple_matches raw tuple = ensure (same_tuple raw.tuple tuple) conflict

  abbrev pub or_else : Option ℕ → ℕ → ℕ
  or_else none default = default
  or_else (some at) default = at

  abbrev pub prior_phase : RawHandoff Value → String → ℕ
  prior_phase raw phase =
      if str_eq phase "dispatch"
      then raw.created_at_ms
      else if str_eq phase "admission"
      then or_else raw.dispatched_at_ms raw.created_at_ms
      else if str_eq phase "terminal"
      then or_else raw.admitted_at_ms (or_else raw.dispatched_at_ms raw.created_at_ms)
      else if str_eq phase "acknowledgment"
      then or_else raw.acknowledged_at_ms (or_else raw.terminal_at_ms raw.created_at_ms)
      else raw.updated_at_ms

  unfoldable pub validate_handoff_transition_time :
      RawHandoff Value → ℕ → String → Result (Unit {0})
  validate_handoff_transition_time raw now_ms phase =
      if ltb now_ms raw.updated_at_ms || ltb now_ms (prior_phase raw phase)
      then err conflict
      else ok tt

  -- The binding is that of a hand-off.
  abbrev pub binds : WorkerBinding → RawHandoff Value → Bool
  binds binding raw =
      str_eq binding.deployment_id raw.tuple.deployment_id
      && str_eq binding.worker_owner_id raw.tuple.worker_owner_id
      && str_eq binding.worker_profile_digest raw.tuple.worker_profile_digest

  -- The control is of the boots that a hand-off was claimed under.
  abbrev pub is_incarnation : WorkerControlWitness → RawHandoff Value → Bool
  is_incarnation control raw =
      str_eq control.deployment_id raw.tuple.deployment_id
      && str_eq control.worker_owner_id raw.tuple.worker_owner_id
      && str_eq control.worker_profile_digest raw.tuple.worker_profile_digest
      && str_eq control.watchdog_boot_id raw.watchdog_boot_id
      && str_eq control.worker_boot_id raw.worker_boot_id

  unfoldable pub validate_dispatch_control_tx : Db → RawHandoff Value → Result (Unit {0})
  unfolding binding_from_tx control_from_tx require_running_desired same_mode
  validate_dispatch_control_tx db raw = do
    require_running_desired db
    found ← binding_from_tx db
    binding ← required found
    ensure (binds binding raw) conflict
    acknowledged ← control_from_tx out db
    control ← required acknowledged
    ensure
        (same_mode control.mode WorkerControlMode.running
          && is_incarnation control raw
          && control.mode_sequence == raw.mode_sequence)
        conflict

  unfoldable pub validate_current_worker_incarnation_tx : Db → RawHandoff Value → Result (Unit {0})
  unfolding binding_from_tx control_from_tx
  validate_current_worker_incarnation_tx db raw = do
    found ← binding_from_tx db
    binding ← required found
    ensure (binds binding raw) conflict
    acknowledged ← control_from_tx out db
    control ← required acknowledged
    ensure (is_incarnation control raw) conflict

  unfoldable pub validate_current_worker_recovery_tx :
      Db → RawHandoff Value → WorkerControlWitness → Result (Unit {0})
  unfolding binding_from_tx control_from_tx same_control
  validate_current_worker_recovery_tx db raw recovery = do
    validate_control out recovery
    found ← binding_from_tx db
    binding ← required found
    validate_control_against_binding recovery binding
    ensure (binds binding raw) conflict
    acknowledged ← control_from_tx out db
    control ← required acknowledged
    ensure (same_control control recovery) conflict
