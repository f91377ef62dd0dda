-- ===== src/Storage/Worker/Tests.antt =====
-- The hand-off at concrete inputs. Values are texts, printed and parsed as they are; the digest of
-- "{}" is the frozen one, and every other text has one digest. A UUID is a text of 36 bytes.
use ascension_watchdog.Prelude.{
  ◌+◌, ◌≤◌, ◌≡◌, refl, String, Bool, true, false, none, some, List, [], ◌∷◌, arith, str_eq,
}
use ascension_watchdog.Prelude.Tests.{◌==◌, if◌then◌else◌}
use ascension_watchdog.Prelude.Lists.{count_where}
use ascension_watchdog.Prelude.Text.{byte_len}
use ascension_watchdog.Config.{DesiredMode}
use ascension_watchdog.Error.{WatchdogError, ok, err}
use ascension_watchdog.Prelude.Text.{to_string}
use ascension_watchdog.Storage.Worker.Types.{
  control_mode_as_str, control_mode_parse, handoff_state_as_str, handoff_state_parse, is_terminal,
  terminal_status_as_str, terminal_status_parse, WorkerHandoffState, WorkerControlMode,
  WorkerTerminalStatus, WorkerBinding, WorkerControlWitness, WorkerClaimWitness, WorkerHandoffTuple,
  WorkerTerminalReceipt, WorkerTerminalRecord, HandoffRow, ControlRow, worker_handoff_schema_digest,
  worker_handoff_payload_digest,
}
use ascension_watchdog.Storage.Worker.Validate.{
  validate_digest_value, validate_worker_identity, validate_binding,
  validate_control_against_binding, validate_uuid4, validate_control, validate_claim_witness,
  validate_tuple,
}
use ascension_watchdog.Storage.Worker.Control.{
  bounded_required_text, same_mode, same_binding, same_control, binding_from_row, binding_from_tx,
  ensure_phase_time_at_least, configure_found, configure_tx, configure_worker_binding_at,
  write_control, set_control_found, require_running_desired, control_from_row, control_from_tx,
  set_control_tx, set_worker_control_at, current_worker_control, claim_witness_from,
  current_worker_claim_witness, validate_claim_witness_tx,
}
use ascension_watchdog.Storage.Worker.Jobs.{
  job_bound, validate_job_phases, bounded_job_from_row, load_job, raw_attempt_from_row,
  load_attempt,
}
use ascension_watchdog.Storage.Worker.Rows.{
  fits_lifecycle, terminal_from, terminal_digest, compact_terminal_result,
  validate_terminal_receipt_columns, validate_terminal_projection, validate_row_identity,
  parameters_from, terminal_from_row, raw_handoff_from_row,
}
use ascension_watchdog.Storage.Worker.Consistency.{
  validate_open, validate_completed, validate_failed, validate_outcome, validate_handoff_job,
}
use ascension_watchdog.Storage.Worker.Queries.{
  same_tuple, missing_handoff, oldest_handoff, load_handoff_tx, checked_job, require_handoff_tx,
  handoff_from_raw, worker_handoff, lookup_worker_handoff, read_oldest,
  next_worker_handoff_for_reconciliation, ensure_tuple_matches, validate_handoff_transition_time,
  validate_dispatch_control_tx, validate_current_worker_incarnation_tx,
  validate_current_worker_recovery_tx, WorkerHandoff, handoff_row,
}
use ascension_watchdog.Storage.Worker.Claim.{
  unresolved_handoff_exists, insert_handoff_row, handoff_writes, handoff_row_tx, claim_handoff_tx,
  claim_next_worker_handoff, DrawnIds, open_handoffs,
}
use ascension_watchdog.Storage.Worker.Dispatch.{
  update_handoff, current_handoff, mark_dispatched_tx, admit_current, mark_admitted_tx,
  mark_worker_handoff_may_have_been_dispatched_at, mark_worker_handoff_admitted_at,
}
use ascension_watchdog.Storage.Worker.Complete.{
  validate_terminal_receipt, finish_rows, finish_writes, repeat_receipt, finish_current,
  complete_handoff_tx, complete_worker_handoff_with_authority_at, complete_worker_handoff_at,
  complete_worker_handoff_with_recovery_at, original_incarnation, current_recovery,
}
use ascension_watchdog.Storage.Worker.Acknowledge.{
  current_ack_intent, acknowledge_current, acknowledge_tx,
  acknowledge_worker_handoff_with_authority_at, acknowledge_worker_handoff_at,
  acknowledge_worker_handoff_with_recovery_at,
}
use ascension_watchdog.Storage.Jobs.Claim.{
  insert_attempt_row, next_attempt_number, payload_read_limit,
}
use ascension_watchdog.Storage.Jobs.Select.{oldest, job_row, attempt_row, unresolved_attempts}
use ascension_watchdog.Storage.Jobs.{validate_claim_payload}
use ascension_watchdog.Storage.Launch.{is_digest}
use ascension_watchdog.Storage.Metadata.{
  validate_name, validate_detail, sqlite_timestamp, sqlite_u32, insert_audit_tx, audit_limit,
  is_emergency_stop_audit_action, is_critical_audit_action, metadata_from_conn, desired_mode_from,
  parse_mode, desired_mode,
}
use ascension_watchdog.Storage.Db.{commit, JobStatus, JobRow, Store}
use ascension_watchdog.Storage.Worker.Outside.{Outside}
use ascension_watchdog.Storage.Worker.Life.{reserved, finished, stage}
use ascension_watchdog.Storage.Worker.Exclusive.{IsExclusive, of_attempt, worker_run-IsExclusive}
use ascension_watchdog.Storage.Worker.Lives.{Line, worker_run-Line, worker_run-authority}
use ascension_watchdog.Storage.Worker.Kept.{Follows}
use ascension_watchdog.Storage.Worker.Once.{dispatch-once}
use ascension_watchdog.Storage.Worker.Repeat.{evidence}
use ascension_watchdog.Storage.Worker.Final.{complete-final, complete-again, complete-settles}
use ascension_watchdog.Storage.Worker.Gates.{IsIncarnation, complete-IsIncarnation, dispatch-gate}
use ascension_watchdog.Storage.Jobs.Hold.{IsHeld}
use ascension_watchdog.Storage.Jobs.Quarantine.{
  quarantine_interrupted_jobs, quarantine_tx, quarantine_all, quarantine_one,
}
use ascension_watchdog.Storage.Worker.Held.{quarantine-IsHeld}
use ascension_watchdog.Storage.Worker.Reconcile.{IsOldest, reconcile-next}
use ascension_watchdog.Storage.Worker.Handed.{
  IsReservation, IsDelivered, claim-reserves, acknowledge-delivers,
}
use ascension_watchdog.Storage.Worker.Cycle.{
  WorkerOp, configure, set_control, claim, dispatch, admit, complete, acknowledge, worker_run,
  worker_step,
}

abbrev a64 : String
a64 = "aaaaaaaaaaaaaaaaaaaaaaaaaaaaaaaaaaaaaaaaaaaaaaaaaaaaaaaaaaaaaaaa"

abbrev plain : Outside String String
plain = record {
  codec = record {
    to_text = λ v. ok v;
    from_text = λ t. ok t;
    hex_digest = λ t. if str_eq t "{}" then worker_handoff_payload_digest else a64;
  };
  same_value = str_eq;
  empty_object = "{}";
  material_text = λ m. ok m.handoff_id;
  receipt_json = λ r. r.terminal_ref;
  parse_uuid = λ t. if byte_len t == 36 then some t else none;
  version_num = λ u. 4;
  is_rfc4122 = λ u. true;
  uuid_text = λ u. u;
}

abbrev watchdog_boot : String
watchdog_boot = "00000000-0000-4000-8000-000000000001"

abbrev worker_boot : String
worker_boot = "00000000-0000-4000-8000-000000000002"

abbrev ids : DrawnIds
ids = record {
  handoff_id = "00000000-0000-4000-8000-000000000011";
  attempt_id = "00000000-0000-4000-8000-000000000012";
  run_id = "00000000-0000-4000-8000-000000000013";
  episode_id = "00000000-0000-4000-8000-000000000014";
  trajectory_id = "00000000-0000-4000-8000-000000000015";
}

abbrev binding : WorkerBinding
binding = record {
  deployment_id = "d1";
  worker_owner_id = "w1";
  worker_profile_digest = a64;
  release_digest = a64;
  config_digest = a64;
  schema_digest = worker_handoff_schema_digest;
}

abbrev control : WorkerControlWitness
control = record {
  deployment_id = "d1";
  worker_owner_id = "w1";
  worker_profile_digest = a64;
  watchdog_boot_id = watchdog_boot;
  worker_boot_id = worker_boot;
  mode = WorkerControlMode.running;
  mode_sequence = 1;
}

abbrev witness : WorkerClaimWitness
witness = record {
  deployment_id = "d1";
  worker_owner_id = "w1";
  worker_profile_digest = a64;
  release_digest = a64;
  config_digest = a64;
  schema_digest = worker_handoff_schema_digest;
  watchdog_boot_id = watchdog_boot;
  worker_boot_id = worker_boot;
  mode_sequence = 1;
}

abbrev tuple : WorkerHandoffTuple
tuple = record {
  handoff_id = ids.handoff_id;
  deployment_id = "d1";
  job_id = "j1";
  attempt_id = ids.attempt_id;
  attempt_number = 1;
  worker_owner_id = "w1";
  worker_profile_digest = a64;
  run_id = ids.run_id;
  episode_id = ids.episode_id;
  trajectory_id = ids.trajectory_id;
  payload_digest = worker_handoff_payload_digest;
}

abbrev receipt : WorkerTerminalReceipt
receipt = record {
  status = WorkerTerminalStatus.completed;
  checkpoint_sequence = 7;
  terminal_ref = "ref";
  result_digest = a64;
}

abbrev episode : JobRow
episode = record {
  id = "j1";
  kind = "runtime_v3_episode";
  payload = "{}";
  payload_digest = worker_handoff_payload_digest;
  status = JobStatus.queued;
  created_at_ms = 10;
  claimed_at_ms = none;
  completed_at_ms = none;
  attempt_count = 0;
  next_retry_at_ms = some 10;
  last_error = none;
  result = none;
  completion_digest = none;
  worker_id = none;
}

-- The store before a claim: the worker is bound, and its control is acknowledged and running.
abbrev ready : Store
ready = record {
  db = record {
    metadata =
        record { key = "desired_mode"; value = "running" }
        ∷ record { key = "updated_at_ms"; value = "0" }
        ∷ record { key = "deployment_id"; value = "d1" }
        ∷ [];
    audit = [];
    jobs = episode ∷ [];
    attempts = [];
    intents = [];
    restarts = [];
    components = [];
    worker_binding = some (record { binding = binding; updated_at_ms = 5 });
    worker_control = some (record { control = control; updated_at_ms = 6 });
    worker_handoffs = [];
  };
  max_jobs = 2;
  max_payload_bytes = 100;
  restart_clock_epoch = "e1";
}

abbrev claimed : Store
claimed = (claim_next_worker_handoff plain ready witness 20 ids).1

abbrev dispatched : Store
dispatched = (mark_worker_handoff_may_have_been_dispatched_at plain claimed tuple 30).1

abbrev completed : Store
completed =
    (complete_worker_handoff_with_authority_at plain dispatched tuple receipt original_incarnation
      40).1

claim-reserves_example :
    (unresolved_attempts ready.db ≡ 0)
    × (open_handoffs ready.db ≡ 0)
    × (unresolved_attempts claimed.db ≡ 1)
    × (open_handoffs claimed.db ≡ 1)
    × IsReservation ready.db witness 20 ids claimed.db
unfolding to_string control_mode_as_str control_mode_parse handoff_state_as_str handoff_state_parse
    is_terminal terminal_status_as_str terminal_status_parse validate_digest_value
    validate_worker_identity validate_binding validate_control_against_binding validate_uuid4
    validate_control validate_claim_witness validate_tuple bounded_required_text same_mode
    same_binding same_control binding_from_row binding_from_tx ensure_phase_time_at_least
    configure_found configure_tx configure_worker_binding_at write_control set_control_found
    require_running_desired control_from_row control_from_tx set_control_tx set_worker_control_at
    current_worker_control claim_witness_from current_worker_claim_witness validate_claim_witness_tx
    job_bound validate_job_phases bounded_job_from_row load_job raw_attempt_from_row load_attempt
    fits_lifecycle terminal_from terminal_digest compact_terminal_result
    validate_terminal_receipt_columns validate_terminal_projection validate_row_identity
    parameters_from terminal_from_row raw_handoff_from_row validate_open validate_completed
    validate_failed validate_outcome validate_handoff_job same_tuple missing_handoff oldest_handoff
    load_handoff_tx checked_job require_handoff_tx handoff_from_raw worker_handoff
    lookup_worker_handoff read_oldest next_worker_handoff_for_reconciliation ensure_tuple_matches
    validate_handoff_transition_time validate_dispatch_control_tx
    validate_current_worker_incarnation_tx validate_current_worker_recovery_tx
    unresolved_handoff_exists insert_handoff_row handoff_writes handoff_row_tx claim_handoff_tx
    claim_next_worker_handoff update_handoff current_handoff mark_dispatched_tx admit_current
    mark_admitted_tx mark_worker_handoff_may_have_been_dispatched_at mark_worker_handoff_admitted_at
    validate_terminal_receipt finish_rows finish_writes repeat_receipt finish_current
    complete_handoff_tx complete_worker_handoff_with_authority_at complete_worker_handoff_at
    complete_worker_handoff_with_recovery_at current_ack_intent acknowledge_current acknowledge_tx
    acknowledge_worker_handoff_with_authority_at acknowledge_worker_handoff_at
    acknowledge_worker_handoff_with_recovery_at insert_attempt_row next_attempt_number
    payload_read_limit oldest job_row attempt_row validate_claim_payload is_digest validate_name
    validate_detail sqlite_timestamp sqlite_u32 insert_audit_tx audit_limit
    is_emergency_stop_audit_action is_critical_audit_action metadata_from_conn desired_mode_from
    parse_mode commit
claim-reserves_example = claim-reserves plain ready witness 20 ids {handoff = _} {s' = claimed} refl

dispatch-gate_example :
    (desired_mode claimed ≡ ok DesiredMode.running)
    × ((c : ControlRow) × (row : HandoffRow) × (claimed.db.worker_control ≡ some c)
        × (handoff_row claimed.db tuple.handoff_id ≡ some row)
        × (stage row ≡ reserved)
        × (c.control.mode ≡ WorkerControlMode.running)
        × IsIncarnation c.control row
        × (c.control.mode_sequence ≡ row.mode_sequence))
unfolding to_string control_mode_as_str control_mode_parse handoff_state_as_str handoff_state_parse
    is_terminal terminal_status_as_str terminal_status_parse validate_digest_value
    validate_worker_identity validate_binding validate_control_against_binding validate_uuid4
    validate_control validate_claim_witness validate_tuple bounded_required_text same_mode
    same_binding same_control binding_from_row binding_from_tx ensure_phase_time_at_least
    configure_found configure_tx configure_worker_binding_at write_control set_control_found
    require_running_desired control_from_row control_from_tx set_control_tx set_worker_control_at
    current_worker_control claim_witness_from current_worker_claim_witness validate_claim_witness_tx
    job_bound validate_job_phases bounded_job_from_row load_job raw_attempt_from_row load_attempt
    fits_lifecycle terminal_from terminal_digest compact_terminal_result
    validate_terminal_receipt_columns validate_terminal_projection validate_row_identity
    parameters_from terminal_from_row raw_handoff_from_row validate_open validate_completed
    validate_failed validate_outcome validate_handoff_job same_tuple missing_handoff oldest_handoff
    load_handoff_tx checked_job require_handoff_tx handoff_from_raw worker_handoff
    lookup_worker_handoff read_oldest next_worker_handoff_for_reconciliation ensure_tuple_matches
    validate_handoff_transition_time validate_dispatch_control_tx
    validate_current_worker_incarnation_tx validate_current_worker_recovery_tx
    unresolved_handoff_exists insert_handoff_row handoff_writes handoff_row_tx claim_handoff_tx
    claim_next_worker_handoff update_handoff current_handoff mark_dispatched_tx admit_current
    mark_admitted_tx mark_worker_handoff_may_have_been_dispatched_at mark_worker_handoff_admitted_at
    validate_terminal_receipt finish_rows finish_writes repeat_receipt finish_current
    complete_handoff_tx complete_worker_handoff_with_authority_at complete_worker_handoff_at
    complete_worker_handoff_with_recovery_at current_ack_intent acknowledge_current acknowledge_tx
    acknowledge_worker_handoff_with_authority_at acknowledge_worker_handoff_at
    acknowledge_worker_handoff_with_recovery_at insert_attempt_row next_attempt_number
    payload_read_limit oldest job_row attempt_row validate_claim_payload is_digest validate_name
    validate_detail sqlite_timestamp sqlite_u32 insert_audit_tx audit_limit
    is_emergency_stop_audit_action is_critical_audit_action metadata_from_conn desired_mode_from
    parse_mode commit
dispatch-gate_example = dispatch-gate plain claimed tuple 30 {handoff = _} {s' = dispatched} refl

dispatch-once_example :
    (e : WatchdogError) × (mark_worker_handoff_may_have_been_dispatched_at plain
        (worker_run plain "null" dispatched (admit tuple 33 ∷ []))
        tuple
        50
      ≡ (err e, worker_run plain "null" dispatched (admit tuple 33 ∷ [])))
unfolding to_string control_mode_as_str control_mode_parse handoff_state_as_str handoff_state_parse
    is_terminal terminal_status_as_str terminal_status_parse validate_digest_value
    validate_worker_identity validate_binding validate_control_against_binding validate_uuid4
    validate_control validate_claim_witness validate_tuple bounded_required_text same_mode
    same_binding same_control binding_from_row binding_from_tx ensure_phase_time_at_least
    configure_found configure_tx configure_worker_binding_at write_control set_control_found
    require_running_desired control_from_row control_from_tx set_control_tx set_worker_control_at
    current_worker_control claim_witness_from current_worker_claim_witness validate_claim_witness_tx
    job_bound validate_job_phases bounded_job_from_row load_job raw_attempt_from_row load_attempt
    fits_lifecycle terminal_from terminal_digest compact_terminal_result
    validate_terminal_receipt_columns validate_terminal_projection validate_row_identity
    parameters_from terminal_from_row raw_handoff_from_row validate_open validate_completed
    validate_failed validate_outcome validate_handoff_job same_tuple missing_handoff oldest_handoff
    load_handoff_tx checked_job require_handoff_tx handoff_from_raw worker_handoff
    lookup_worker_handoff read_oldest next_worker_handoff_for_reconciliation ensure_tuple_matches
    validate_handoff_transition_time validate_dispatch_control_tx
    validate_current_worker_incarnation_tx validate_current_worker_recovery_tx
    unresolved_handoff_exists insert_handoff_row handoff_writes handoff_row_tx claim_handoff_tx
    claim_next_worker_handoff update_handoff current_handoff mark_dispatched_tx admit_current
    mark_admitted_tx mark_worker_handoff_may_have_been_dispatched_at mark_worker_handoff_admitted_at
    validate_terminal_receipt finish_rows finish_writes repeat_receipt finish_current
    complete_handoff_tx complete_worker_handoff_with_authority_at complete_worker_handoff_at
    complete_worker_handoff_with_recovery_at current_ack_intent acknowledge_current acknowledge_tx
    acknowledge_worker_handoff_with_authority_at acknowledge_worker_handoff_at
    acknowledge_worker_handoff_with_recovery_at insert_attempt_row next_attempt_number
    payload_read_limit oldest job_row attempt_row validate_claim_payload is_digest validate_name
    validate_detail sqlite_timestamp sqlite_u32 insert_audit_tx audit_limit
    is_emergency_stop_audit_action is_critical_audit_action metadata_from_conn desired_mode_from
    parse_mode commit
dispatch-once_example =
    dispatch-once plain "null" claimed tuple 30 (admit tuple 33 ∷ []) 50 {handoff = _}
      {s' = dispatched} refl

-- Every call of a life, some of them more than once.
abbrev calls : List (WorkerOp String)
calls =
    configure binding 7
    ∷ claim witness 20 ids
    ∷ claim witness 21 ids
    ∷ dispatch tuple 30
    ∷ dispatch tuple 31
    ∷ admit tuple 33
    ∷ complete tuple receipt original_incarnation 40
    ∷ complete tuple receipt (current_recovery control) 41
    ∷ acknowledge tuple a64 original_incarnation 42
    ∷ set_control (record control { mode_sequence = 2 }) 43
    ∷ []

no_handoffs : (id : String) → count_where (of_attempt id) ready.db.worker_handoffs ≤ 1
no_handoffs id = omega arith

ready-IsExclusive : IsExclusive ready
ready-IsExclusive = record {
  single = omega arith;
  paired = refl;
  within = omega arith;
  one_open = omega arith;
  ids = λ id. omega arith;
  attempts = no_handoffs;
}

worker_run-IsExclusive_example : IsExclusive (worker_run plain "null" ready calls)
worker_run-IsExclusive_example = worker_run-IsExclusive plain "null" ready calls ready-IsExclusive

-- The row that the claim stores.
abbrev first_row : HandoffRow
first_row = record {
  tuple = tuple;
  watchdog_boot_id = watchdog_boot;
  worker_boot_id = worker_boot;
  mode_sequence = 1;
  operation = "runtime_v3_episode";
  parameters = "{}";
  state = WorkerHandoffState.prepared;
  terminal_status = none;
  checkpoint_sequence = none;
  terminal_ref = none;
  result_digest = none;
  terminal_digest = none;
  terminal_result = none;
  ack_intent = false;
  created_at_ms = 20;
  updated_at_ms = 20;
  dispatched_at_ms = none;
  admitted_at_ms = none;
  terminal_at_ms = none;
  acknowledged_at_ms = none;
}

worker_run-Line_example :
    (b : HandoffRow) × (handoff_row (worker_run plain "null" claimed calls).db tuple.handoff_id
      ≡ some b)
    × Line first_row b
unfolding to_string control_mode_as_str control_mode_parse handoff_state_as_str handoff_state_parse
    is_terminal terminal_status_as_str terminal_status_parse validate_digest_value
    validate_worker_identity validate_binding validate_control_against_binding validate_uuid4
    validate_control validate_claim_witness validate_tuple bounded_required_text same_mode
    same_binding same_control binding_from_row binding_from_tx ensure_phase_time_at_least
    configure_found configure_tx configure_worker_binding_at write_control set_control_found
    require_running_desired control_from_row control_from_tx set_control_tx set_worker_control_at
    current_worker_control claim_witness_from current_worker_claim_witness validate_claim_witness_tx
    job_bound validate_job_phases bounded_job_from_row load_job raw_attempt_from_row load_attempt
    fits_lifecycle terminal_from terminal_digest compact_terminal_result
    validate_terminal_receipt_columns validate_terminal_projection validate_row_identity
    parameters_from terminal_from_row raw_handoff_from_row validate_open validate_completed
    validate_failed validate_outcome validate_handoff_job same_tuple missing_handoff oldest_handoff
    load_handoff_tx checked_job require_handoff_tx handoff_from_raw worker_handoff
    lookup_worker_handoff read_oldest next_worker_handoff_for_reconciliation ensure_tuple_matches
    validate_handoff_transition_time validate_dispatch_control_tx
    validate_current_worker_incarnation_tx validate_current_worker_recovery_tx
    unresolved_handoff_exists insert_handoff_row handoff_writes handoff_row_tx claim_handoff_tx
    claim_next_worker_handoff update_handoff current_handoff mark_dispatched_tx admit_current
    mark_admitted_tx mark_worker_handoff_may_have_been_dispatched_at mark_worker_handoff_admitted_at
    validate_terminal_receipt finish_rows finish_writes repeat_receipt finish_current
    complete_handoff_tx complete_worker_handoff_with_authority_at complete_worker_handoff_at
    complete_worker_handoff_with_recovery_at current_ack_intent acknowledge_current acknowledge_tx
    acknowledge_worker_handoff_with_authority_at acknowledge_worker_handoff_at
    acknowledge_worker_handoff_with_recovery_at insert_attempt_row next_attempt_number
    payload_read_limit oldest job_row attempt_row validate_claim_payload is_digest validate_name
    validate_detail sqlite_timestamp sqlite_u32 insert_audit_tx audit_limit
    is_emergency_stop_audit_action is_critical_audit_action metadata_from_conn desired_mode_from
    parse_mode commit
worker_run-Line_example =
    worker_run-Line plain "null" claimed calls tuple.handoff_id {a = first_row} refl

worker_run-authority_example :
    ((worker_run plain "null" ready calls).db.worker_binding
      ≡ some (record { binding = binding; updated_at_ms = 5 }))
    × ((b : ControlRow) × ((worker_run plain "null" ready calls).db.worker_control ≡ some b)
        × Follows (record { control = control; updated_at_ms = 6 }) b)
worker_run-authority_example = worker_run-authority plain "null" ready calls refl refl

-- The hand-off that the completion answers.
abbrev completed_handoff : WorkerHandoff String
completed_handoff = record {
  tuple = tuple;
  watchdog_boot_id = watchdog_boot;
  worker_boot_id = worker_boot;
  mode_sequence = 1;
  operation = "runtime_v3_episode";
  parameters = "{}";
  state = WorkerHandoffState.completed;
  job = record {
    id = "j1";
    kind = "runtime_v3_episode";
    payload = "{}";
    payload_digest = worker_handoff_payload_digest;
    status = JobStatus.completed;
    created_at_ms = 10;
    claimed_at_ms = some 20;
    completed_at_ms = some 40;
    attempt_count = 1;
    next_retry_at_ms = none;
    last_error = none;
    result = some "ref";
    worker_id = some "w1";
  };
  terminal = some (record {
    status = WorkerTerminalStatus.completed;
    checkpoint_sequence = 7;
    terminal_ref = "ref";
    result_digest = a64;
    terminal_digest = a64;
  });
  created_at_ms = 20;
  updated_at_ms = 40;
}

abbrev other_receipt : WorkerTerminalReceipt
other_receipt = record receipt { status = WorkerTerminalStatus.failed }

abbrev settled : Store
settled = (acknowledge_worker_handoff_at plain completed tuple a64 45).1

-- With this material every receipt has one digest, so that another receipt is a repeat too.
complete-final_example :
    (a64 ≡ a64) × (true ≡ true) × (completed ≡ worker_run plain "null" completed [])
unfolding to_string control_mode_as_str control_mode_parse handoff_state_as_str handoff_state_parse
    is_terminal terminal_status_as_str terminal_status_parse validate_digest_value
    validate_worker_identity validate_binding validate_control_against_binding validate_uuid4
    validate_control validate_claim_witness validate_tuple bounded_required_text same_mode
    same_binding same_control binding_from_row binding_from_tx ensure_phase_time_at_least
    configure_found configure_tx configure_worker_binding_at write_control set_control_found
    require_running_desired control_from_row control_from_tx set_control_tx set_worker_control_at
    current_worker_control claim_witness_from current_worker_claim_witness validate_claim_witness_tx
    job_bound validate_job_phases bounded_job_from_row load_job raw_attempt_from_row load_attempt
    fits_lifecycle terminal_from terminal_digest compact_terminal_result
    validate_terminal_receipt_columns validate_terminal_projection validate_row_identity
    parameters_from terminal_from_row raw_handoff_from_row validate_open validate_completed
    validate_failed validate_outcome validate_handoff_job same_tuple missing_handoff oldest_handoff
    load_handoff_tx checked_job require_handoff_tx handoff_from_raw worker_handoff
    lookup_worker_handoff read_oldest next_worker_handoff_for_reconciliation ensure_tuple_matches
    validate_handoff_transition_time validate_dispatch_control_tx
    validate_current_worker_incarnation_tx validate_current_worker_recovery_tx
    unresolved_handoff_exists insert_handoff_row handoff_writes handoff_row_tx claim_handoff_tx
    claim_next_worker_handoff update_handoff current_handoff mark_dispatched_tx admit_current
    mark_admitted_tx mark_worker_handoff_may_have_been_dispatched_at mark_worker_handoff_admitted_at
    validate_terminal_receipt finish_rows finish_writes repeat_receipt finish_current
    complete_handoff_tx complete_worker_handoff_with_authority_at complete_worker_handoff_at
    complete_worker_handoff_with_recovery_at current_ack_intent acknowledge_current acknowledge_tx
    acknowledge_worker_handoff_with_authority_at acknowledge_worker_handoff_at
    acknowledge_worker_handoff_with_recovery_at insert_attempt_row next_attempt_number
    payload_read_limit oldest job_row attempt_row validate_claim_payload is_digest validate_name
    validate_detail sqlite_timestamp sqlite_u32 insert_audit_tx audit_limit
    is_emergency_stop_audit_action is_critical_audit_action metadata_from_conn desired_mode_from
    parse_mode commit worker_run worker_step
complete-final_example =
    complete-final plain "null" dispatched tuple receipt original_incarnation 40 [] other_receipt
      original_incarnation 50
      {c = record { handoff = completed_handoff; terminal_digest = a64; already_completed = false }}
      {c' = record { handoff = completed_handoff; terminal_digest = a64; already_completed = true }}
      {s' = completed} {s'' = completed} refl refl

no_more : (b : Bool) → (if b then 1 else 0) + 0 ≤ 1
no_more b = ground arith

dispatched-IsExclusive : IsExclusive dispatched
unfolding to_string control_mode_as_str control_mode_parse handoff_state_as_str handoff_state_parse
    is_terminal terminal_status_as_str terminal_status_parse validate_digest_value
    validate_worker_identity validate_binding validate_control_against_binding validate_uuid4
    validate_control validate_claim_witness validate_tuple bounded_required_text same_mode
    same_binding same_control binding_from_row binding_from_tx ensure_phase_time_at_least
    configure_found configure_tx configure_worker_binding_at write_control set_control_found
    require_running_desired control_from_row control_from_tx set_control_tx set_worker_control_at
    current_worker_control claim_witness_from current_worker_claim_witness validate_claim_witness_tx
    job_bound validate_job_phases bounded_job_from_row load_job raw_attempt_from_row load_attempt
    fits_lifecycle terminal_from terminal_digest compact_terminal_result
    validate_terminal_receipt_columns validate_terminal_projection validate_row_identity
    parameters_from terminal_from_row raw_handoff_from_row validate_open validate_completed
    validate_failed validate_outcome validate_handoff_job same_tuple missing_handoff oldest_handoff
    load_handoff_tx checked_job require_handoff_tx handoff_from_raw worker_handoff
    lookup_worker_handoff read_oldest next_worker_handoff_for_reconciliation ensure_tuple_matches
    validate_handoff_transition_time validate_dispatch_control_tx
    validate_current_worker_incarnation_tx validate_current_worker_recovery_tx
    unresolved_handoff_exists insert_handoff_row handoff_writes handoff_row_tx claim_handoff_tx
    claim_next_worker_handoff update_handoff current_handoff mark_dispatched_tx admit_current
    mark_admitted_tx mark_worker_handoff_may_have_been_dispatched_at mark_worker_handoff_admitted_at
    validate_terminal_receipt finish_rows finish_writes repeat_receipt finish_current
    complete_handoff_tx complete_worker_handoff_with_authority_at complete_worker_handoff_at
    complete_worker_handoff_with_recovery_at current_ack_intent acknowledge_current acknowledge_tx
    acknowledge_worker_handoff_with_authority_at acknowledge_worker_handoff_at
    acknowledge_worker_handoff_with_recovery_at insert_attempt_row next_attempt_number
    payload_read_limit oldest job_row attempt_row validate_claim_payload is_digest validate_name
    validate_detail sqlite_timestamp sqlite_u32 insert_audit_tx audit_limit
    is_emergency_stop_audit_action is_critical_audit_action metadata_from_conn desired_mode_from
    parse_mode commit
dispatched-IsExclusive = record {
  single = omega arith;
  paired = refl;
  within = omega arith;
  one_open = omega arith;
  ids = λ id. no_more (str_eq tuple.handoff_id id);
  attempts = λ id. no_more (str_eq tuple.attempt_id id);
}

complete-again_example :
    complete_worker_handoff_with_authority_at plain completed tuple receipt original_incarnation 60
    ≡ (
      ok (record { handoff = completed_handoff; terminal_digest = a64; already_completed = true }),
      completed,
    )
unfolding to_string control_mode_as_str control_mode_parse handoff_state_as_str handoff_state_parse
    is_terminal terminal_status_as_str terminal_status_parse validate_digest_value
    validate_worker_identity validate_binding validate_control_against_binding validate_uuid4
    validate_control validate_claim_witness validate_tuple bounded_required_text same_mode
    same_binding same_control binding_from_row binding_from_tx ensure_phase_time_at_least
    configure_found configure_tx configure_worker_binding_at write_control set_control_found
    require_running_desired control_from_row control_from_tx set_control_tx set_worker_control_at
    current_worker_control claim_witness_from current_worker_claim_witness validate_claim_witness_tx
    job_bound validate_job_phases bounded_job_from_row load_job raw_attempt_from_row load_attempt
    fits_lifecycle terminal_from terminal_digest compact_terminal_result
    validate_terminal_receipt_columns validate_terminal_projection validate_row_identity
    parameters_from terminal_from_row raw_handoff_from_row validate_open validate_completed
    validate_failed validate_outcome validate_handoff_job same_tuple missing_handoff oldest_handoff
    load_handoff_tx checked_job require_handoff_tx handoff_from_raw worker_handoff
    lookup_worker_handoff read_oldest next_worker_handoff_for_reconciliation ensure_tuple_matches
    validate_handoff_transition_time validate_dispatch_control_tx
    validate_current_worker_incarnation_tx validate_current_worker_recovery_tx
    unresolved_handoff_exists insert_handoff_row handoff_writes handoff_row_tx claim_handoff_tx
    claim_next_worker_handoff update_handoff current_handoff mark_dispatched_tx admit_current
    mark_admitted_tx mark_worker_handoff_may_have_been_dispatched_at mark_worker_handoff_admitted_at
    validate_terminal_receipt finish_rows finish_writes repeat_receipt finish_current
    complete_handoff_tx complete_worker_handoff_with_authority_at complete_worker_handoff_at
    complete_worker_handoff_with_recovery_at current_ack_intent acknowledge_current acknowledge_tx
    acknowledge_worker_handoff_with_authority_at acknowledge_worker_handoff_at
    acknowledge_worker_handoff_with_recovery_at insert_attempt_row next_attempt_number
    payload_read_limit oldest job_row attempt_row validate_claim_payload is_digest validate_name
    validate_detail sqlite_timestamp sqlite_u32 insert_audit_tx audit_limit
    is_emergency_stop_audit_action is_critical_audit_action metadata_from_conn desired_mode_from
    parse_mode commit
complete-again_example =
    complete-again plain dispatched tuple receipt original_incarnation 40 60
      {c = record { handoff = completed_handoff; terminal_digest = a64; already_completed = false }}
      {s' = completed} refl

complete-settles_example :
    (unresolved_attempts completed.db ≡ 0)
    × (open_handoffs completed.db ≡ 0)
    × ((row : HandoffRow) × (text : String) × (handoff_row completed.db tuple.handoff_id ≡ some row)
        × (stage row ≡ finished (evidence receipt a64 text)))
unfolding to_string control_mode_as_str control_mode_parse handoff_state_as_str handoff_state_parse
    is_terminal terminal_status_as_str terminal_status_parse validate_digest_value
    validate_worker_identity validate_binding validate_control_against_binding validate_uuid4
    validate_control validate_claim_witness validate_tuple bounded_required_text same_mode
    same_binding same_control binding_from_row binding_from_tx ensure_phase_time_at_least
    configure_found configure_tx configure_worker_binding_at write_control set_control_found
    require_running_desired control_from_row control_from_tx set_control_tx set_worker_control_at
    current_worker_control claim_witness_from current_worker_claim_witness validate_claim_witness_tx
    job_bound validate_job_phases bounded_job_from_row load_job raw_attempt_from_row load_attempt
    fits_lifecycle terminal_from terminal_digest compact_terminal_result
    validate_terminal_receipt_columns validate_terminal_projection validate_row_identity
    parameters_from terminal_from_row raw_handoff_from_row validate_open validate_completed
    validate_failed validate_outcome validate_handoff_job same_tuple missing_handoff oldest_handoff
    load_handoff_tx checked_job require_handoff_tx handoff_from_raw worker_handoff
    lookup_worker_handoff read_oldest next_worker_handoff_for_reconciliation ensure_tuple_matches
    validate_handoff_transition_time validate_dispatch_control_tx
    validate_current_worker_incarnation_tx validate_current_worker_recovery_tx
    unresolved_handoff_exists insert_handoff_row handoff_writes handoff_row_tx claim_handoff_tx
    claim_next_worker_handoff update_handoff current_handoff mark_dispatched_tx admit_current
    mark_admitted_tx mark_worker_handoff_may_have_been_dispatched_at mark_worker_handoff_admitted_at
    validate_terminal_receipt finish_rows finish_writes repeat_receipt finish_current
    complete_handoff_tx complete_worker_handoff_with_authority_at complete_worker_handoff_at
    complete_worker_handoff_with_recovery_at current_ack_intent acknowledge_current acknowledge_tx
    acknowledge_worker_handoff_with_authority_at acknowledge_worker_handoff_at
    acknowledge_worker_handoff_with_recovery_at insert_attempt_row next_attempt_number
    payload_read_limit oldest job_row attempt_row validate_claim_payload is_digest validate_name
    validate_detail sqlite_timestamp sqlite_u32 insert_audit_tx audit_limit
    is_emergency_stop_audit_action is_critical_audit_action metadata_from_conn desired_mode_from
    parse_mode commit
complete-settles_example =
    complete-settles plain dispatched tuple receipt original_incarnation 40 {c = _} {s' = completed}
      dispatched-IsExclusive refl refl

complete-IsIncarnation_example :
    (c : ControlRow) × (row : HandoffRow) × (dispatched.db.worker_control ≡ some c)
    × (handoff_row dispatched.db tuple.handoff_id ≡ some row)
    × IsIncarnation c.control row
unfolding to_string control_mode_as_str control_mode_parse handoff_state_as_str handoff_state_parse
    is_terminal terminal_status_as_str terminal_status_parse validate_digest_value
    validate_worker_identity validate_binding validate_control_against_binding validate_uuid4
    validate_control validate_claim_witness validate_tuple bounded_required_text same_mode
    same_binding same_control binding_from_row binding_from_tx ensure_phase_time_at_least
    configure_found configure_tx configure_worker_binding_at write_control set_control_found
    require_running_desired control_from_row control_from_tx set_control_tx set_worker_control_at
    current_worker_control claim_witness_from current_worker_claim_witness validate_claim_witness_tx
    job_bound validate_job_phases bounded_job_from_row load_job raw_attempt_from_row load_attempt
    fits_lifecycle terminal_from terminal_digest compact_terminal_result
    validate_terminal_receipt_columns validate_terminal_projection validate_row_identity
    parameters_from terminal_from_row raw_handoff_from_row validate_open validate_completed
    validate_failed validate_outcome validate_handoff_job same_tuple missing_handoff oldest_handoff
    load_handoff_tx checked_job require_handoff_tx handoff_from_raw worker_handoff
    lookup_worker_handoff read_oldest next_worker_handoff_for_reconciliation ensure_tuple_matches
    validate_handoff_transition_time validate_dispatch_control_tx
    validate_current_worker_incarnation_tx validate_current_worker_recovery_tx
    unresolved_handoff_exists insert_handoff_row handoff_writes handoff_row_tx claim_handoff_tx
    claim_next_worker_handoff update_handoff current_handoff mark_dispatched_tx admit_current
    mark_admitted_tx mark_worker_handoff_may_have_been_dispatched_at mark_worker_handoff_admitted_at
    validate_terminal_receipt finish_rows finish_writes repeat_receipt finish_current
    complete_handoff_tx complete_worker_handoff_with_authority_at complete_worker_handoff_at
    complete_worker_handoff_with_recovery_at current_ack_intent acknowledge_current acknowledge_tx
    acknowledge_worker_handoff_with_authority_at acknowledge_worker_handoff_at
    acknowledge_worker_handoff_with_recovery_at insert_attempt_row next_attempt_number
    payload_read_limit oldest job_row attempt_row validate_claim_payload is_digest validate_name
    validate_detail sqlite_timestamp sqlite_u32 insert_audit_tx audit_limit
    is_emergency_stop_audit_action is_critical_audit_action metadata_from_conn desired_mode_from
    parse_mode commit
complete-IsIncarnation_example =
    complete-IsIncarnation plain dispatched tuple receipt 40 {c = _} {s' = completed} refl refl

acknowledge-delivers_example :
    (a64 ≡ a64)
    × ((before after : HandoffRow) × (t : WorkerTerminalRecord) × (handoff_row completed.db
            tuple.handoff_id
          ≡ some before)
        × (handoff_row settled.db tuple.handoff_id ≡ some after)
        × (terminal_from_row plain before ≡ ok (some t))
        × (t.terminal_digest ≡ a64)
        × IsDelivered before after)
    × (settled.db.jobs ≡ completed.db.jobs)
    × (settled.db.attempts ≡ completed.db.attempts)
unfolding to_string control_mode_as_str control_mode_parse handoff_state_as_str handoff_state_parse
    is_terminal terminal_status_as_str terminal_status_parse validate_digest_value
    validate_worker_identity validate_binding validate_control_against_binding validate_uuid4
    validate_control validate_claim_witness validate_tuple bounded_required_text same_mode
    same_binding same_control binding_from_row binding_from_tx ensure_phase_time_at_least
    configure_found configure_tx configure_worker_binding_at write_control set_control_found
    require_running_desired control_from_row control_from_tx set_control_tx set_worker_control_at
    current_worker_control claim_witness_from current_worker_claim_witness validate_claim_witness_tx
    job_bound validate_job_phases bounded_job_from_row load_job raw_attempt_from_row load_attempt
    fits_lifecycle terminal_from terminal_digest compact_terminal_result
    validate_terminal_receipt_columns validate_terminal_projection validate_row_identity
    parameters_from terminal_from_row raw_handoff_from_row validate_open validate_completed
    validate_failed validate_outcome validate_handoff_job same_tuple missing_handoff oldest_handoff
    load_handoff_tx checked_job require_handoff_tx handoff_from_raw worker_handoff
    lookup_worker_handoff read_oldest next_worker_handoff_for_reconciliation ensure_tuple_matches
    validate_handoff_transition_time validate_dispatch_control_tx
    validate_current_worker_incarnation_tx validate_current_worker_recovery_tx
    unresolved_handoff_exists insert_handoff_row handoff_writes handoff_row_tx claim_handoff_tx
    claim_next_worker_handoff update_handoff current_handoff mark_dispatched_tx admit_current
    mark_admitted_tx mark_worker_handoff_may_have_been_dispatched_at mark_worker_handoff_admitted_at
    validate_terminal_receipt finish_rows finish_writes repeat_receipt finish_current
    complete_handoff_tx complete_worker_handoff_with_authority_at complete_worker_handoff_at
    complete_worker_handoff_with_recovery_at current_ack_intent acknowledge_current acknowledge_tx
    acknowledge_worker_handoff_with_authority_at acknowledge_worker_handoff_at
    acknowledge_worker_handoff_with_recovery_at insert_attempt_row next_attempt_number
    payload_read_limit oldest job_row attempt_row validate_claim_payload is_digest validate_name
    validate_detail sqlite_timestamp sqlite_u32 insert_audit_tx audit_limit
    is_emergency_stop_audit_action is_critical_audit_action metadata_from_conn desired_mode_from
    parse_mode commit
acknowledge-delivers_example =
    acknowledge-delivers plain completed tuple a64 original_incarnation 45 {answer = _}
      {s' = settled} refl

-- The hand-off of the job that runs.
abbrev dispatched_handoff : WorkerHandoff String
dispatched_handoff = record completed_handoff {
  state = WorkerHandoffState.may_have_been_dispatched;
  job = record {
    id = "j1";
    kind = "runtime_v3_episode";
    payload = "{}";
    payload_digest = worker_handoff_payload_digest;
    status = JobStatus.running;
    created_at_ms = 10;
    claimed_at_ms = some 20;
    completed_at_ms = none;
    attempt_count = 1;
    next_retry_at_ms = none;
    last_error = none;
    result = none;
    worker_id = some "w1";
  };
  terminal = none;
  updated_at_ms = 30;
}

reconcile-next_example :
    (row : HandoffRow) × IsOldest dispatched.db.worker_handoffs row
    × (tuple ≡ row.tuple)
    × (WorkerHandoffState.may_have_been_dispatched ≡ row.state)
unfolding to_string control_mode_as_str control_mode_parse handoff_state_as_str handoff_state_parse
    is_terminal terminal_status_as_str terminal_status_parse validate_digest_value
    validate_worker_identity validate_binding validate_control_against_binding validate_uuid4
    validate_control validate_claim_witness validate_tuple bounded_required_text same_mode
    same_binding same_control binding_from_row binding_from_tx ensure_phase_time_at_least
    configure_found configure_tx configure_worker_binding_at write_control set_control_found
    require_running_desired control_from_row control_from_tx set_control_tx set_worker_control_at
    current_worker_control claim_witness_from current_worker_claim_witness validate_claim_witness_tx
    job_bound validate_job_phases bounded_job_from_row load_job raw_attempt_from_row load_attempt
    fits_lifecycle terminal_from terminal_digest compact_terminal_result
    validate_terminal_receipt_columns validate_terminal_projection validate_row_identity
    parameters_from terminal_from_row raw_handoff_from_row validate_open validate_completed
    validate_failed validate_outcome validate_handoff_job same_tuple missing_handoff oldest_handoff
    load_handoff_tx checked_job require_handoff_tx handoff_from_raw worker_handoff
    lookup_worker_handoff read_oldest next_worker_handoff_for_reconciliation ensure_tuple_matches
    validate_handoff_transition_time validate_dispatch_control_tx
    validate_current_worker_incarnation_tx validate_current_worker_recovery_tx
    unresolved_handoff_exists insert_handoff_row handoff_writes handoff_row_tx claim_handoff_tx
    claim_next_worker_handoff update_handoff current_handoff mark_dispatched_tx admit_current
    mark_admitted_tx mark_worker_handoff_may_have_been_dispatched_at mark_worker_handoff_admitted_at
    validate_terminal_receipt finish_rows finish_writes repeat_receipt finish_current
    complete_handoff_tx complete_worker_handoff_with_authority_at complete_worker_handoff_at
    complete_worker_handoff_with_recovery_at current_ack_intent acknowledge_current acknowledge_tx
    acknowledge_worker_handoff_with_authority_at acknowledge_worker_handoff_at
    acknowledge_worker_handoff_with_recovery_at insert_attempt_row next_attempt_number
    payload_read_limit oldest job_row attempt_row validate_claim_payload is_digest validate_name
    validate_detail sqlite_timestamp sqlite_u32 insert_audit_tx audit_limit
    is_emergency_stop_audit_action is_critical_audit_action metadata_from_conn desired_mode_from
    parse_mode commit
reconcile-next_example =
    reconcile-next plain dispatched {answer = some dispatched_handoff} dispatched-IsExclusive refl

-- A job of the queue runs, and none was handed off.
abbrev unhanded : Store
unhanded = record claimed { db = record claimed.db { worker_handoffs = [] } }

abbrev held : Store
held = (quarantine_interrupted_jobs unhanded 60).1

quarantine-IsHeld_example : IsHeld (worker_run plain "null" held calls)
unfolding to_string control_mode_as_str control_mode_parse handoff_state_as_str handoff_state_parse
    is_terminal terminal_status_as_str terminal_status_parse validate_digest_value
    validate_worker_identity validate_binding validate_control_against_binding validate_uuid4
    validate_control validate_claim_witness validate_tuple bounded_required_text same_mode
    same_binding same_control binding_from_row binding_from_tx ensure_phase_time_at_least
    configure_found configure_tx configure_worker_binding_at write_control set_control_found
    require_running_desired control_from_row control_from_tx set_control_tx set_worker_control_at
    current_worker_control claim_witness_from current_worker_claim_witness validate_claim_witness_tx
    job_bound validate_job_phases bounded_job_from_row load_job raw_attempt_from_row load_attempt
    fits_lifecycle terminal_from terminal_digest compact_terminal_result
    validate_terminal_receipt_columns validate_terminal_projection validate_row_identity
    parameters_from terminal_from_row raw_handoff_from_row validate_open validate_completed
    validate_failed validate_outcome validate_handoff_job same_tuple missing_handoff oldest_handoff
    load_handoff_tx checked_job require_handoff_tx handoff_from_raw worker_handoff
    lookup_worker_handoff read_oldest next_worker_handoff_for_reconciliation ensure_tuple_matches
    validate_handoff_transition_time validate_dispatch_control_tx
    validate_current_worker_incarnation_tx validate_current_worker_recovery_tx
    unresolved_handoff_exists insert_handoff_row handoff_writes handoff_row_tx claim_handoff_tx
    claim_next_worker_handoff update_handoff current_handoff mark_dispatched_tx admit_current
    mark_admitted_tx mark_worker_handoff_may_have_been_dispatched_at mark_worker_handoff_admitted_at
    validate_terminal_receipt finish_rows finish_writes repeat_receipt finish_current
    complete_handoff_tx complete_worker_handoff_with_authority_at complete_worker_handoff_at
    complete_worker_handoff_with_recovery_at current_ack_intent acknowledge_current acknowledge_tx
    acknowledge_worker_handoff_with_authority_at acknowledge_worker_handoff_at
    acknowledge_worker_handoff_with_recovery_at insert_attempt_row next_attempt_number
    payload_read_limit oldest job_row attempt_row validate_claim_payload is_digest validate_name
    validate_detail sqlite_timestamp sqlite_u32 insert_audit_tx audit_limit
    is_emergency_stop_audit_action is_critical_audit_action metadata_from_conn desired_mode_from
    parse_mode commit quarantine_interrupted_jobs quarantine_tx quarantine_all quarantine_one
quarantine-IsHeld_example =
    quarantine-IsHeld plain "null" unhanded 60 calls {n = 1} {s' = held} refl (omega arith) refl
