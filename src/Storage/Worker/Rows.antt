-- ===== src/Storage/Worker/Rows.antt =====
-- crates/watchdog/src/storage_worker_queries_{handoff_row,projection,terminal}.rs: the decoder of
-- a hand-off's row, the consistency of its life-cycle columns, and the digest of its receipt.
use ascension_watchdog.Prelude.{
  ℕ, Bool, true, false, ◌&&◌, ◌||◌, not, String, Option, none, some, [], ◌∷◌, str_eq,
}
use ascension_watchdog.Prelude.Tests.{ltb, leb, ◌==◌, if◌then◌else◌}
use ascension_watchdog.Prelude.Text.{byte_len}
use ascension_watchdog.Error.{
  Result, ok, err, ensure, as_sqlite, invalid_input, sqlite, ◌>>=◌, ◌>>◌,
}
use ascension_watchdog.Storage.Metadata.{validate_name, sqlite_u32}
use ascension_watchdog.Storage.Launch.{is_some}
use ascension_watchdog.Storage.Worker.Types.{
  max_worker_wire_integer, worker_handoff_operation, WorkerHandoffState, WorkerHandoffTuple,
  WorkerTerminalStatus, WorkerTerminalReceipt, WorkerTerminalRecord, HandoffRow, is_terminal,
}
use ascension_watchdog.Storage.Worker.Outside.{Outside, Material}
use ascension_watchdog.Storage.Worker.Validate.{
  each, validate_tuple, validate_uuid4, validate_digest_value,
}
use ascension_watchdog.Storage.Worker.Control.{bounded_required_text}
use ascension_watchdog.Storage.Worker.Jobs.{or_marker, on_some, is_some_and, same_presence}

abbrev pub max_terminal_ref_bytes : ℕ
max_terminal_ref_bytes = 1024

abbrev pub max_worker_result_bytes : ℕ
max_worker_result_bytes = 65536

pub record RawHandoff (Value : Type 0) : Type 0 where
  pub tuple : WorkerHandoffTuple
  pub watchdog_boot_id : String
  pub worker_boot_id : String
  pub mode_sequence : ℕ
  pub operation : String
  pub parameters : Value
  pub state : WorkerHandoffState
  pub terminal : Option WorkerTerminalRecord
  pub terminal_result : Option String
  pub created_at_ms : ℕ
  pub updated_at_ms : ℕ
  pub dispatched_at_ms : Option ℕ
  pub admitted_at_ms : Option ℕ
  pub terminal_at_ms : Option ℕ
  pub acknowledged_at_ms : Option ℕ

-- The columns that each state has, and has not.
unfoldable pub fits_lifecycle :
    WorkerHandoffState → Bool → Option ℕ → Option ℕ → Option ℕ → Option ℕ → Bool
fits_lifecycle WorkerHandoffState.prepared ack dispatched admitted terminal acknowledged =
    not (ack || is_some dispatched || is_some admitted || is_some terminal || is_some acknowledged)
fits_lifecycle WorkerHandoffState.rejected ack dispatched admitted terminal acknowledged =
    not (ack || is_some dispatched || is_some admitted || is_some terminal || is_some acknowledged)
fits_lifecycle WorkerHandoffState.may_have_been_dispatched ack dispatched admitted terminal
      acknowledged =
    not (
      ack
      || not (is_some dispatched)
      || is_some admitted
      || is_some terminal
      || is_some acknowledged)
fits_lifecycle WorkerHandoffState.admitted ack dispatched admitted terminal acknowledged = not (
    ack
    || not (is_some dispatched)
    || not (is_some admitted)
    || is_some terminal
    || is_some acknowledged)
fits_lifecycle WorkerHandoffState.completed ack dispatched admitted terminal acknowledged =
    not (not ack || not (is_some dispatched) || not (is_some terminal) || is_some acknowledged)
fits_lifecycle WorkerHandoffState.failed ack dispatched admitted terminal acknowledged =
    not (not ack || not (is_some dispatched) || not (is_some terminal) || is_some acknowledged)
fits_lifecycle WorkerHandoffState.acknowledged ack dispatched admitted terminal acknowledged =
    not
      (not ack || not (is_some dispatched) || not (is_some terminal) || not (is_some acknowledged))

-- `later < earlier`, where both are there, is an error.
abbrev in_order : Option ℕ → Option ℕ → Result (Unit {0})
in_order (some earlier) (some later) = ensure (not (ltb later earlier)) sqlite
in_order _ _ = ok tt

abbrev within : ℕ → ℕ → Option ℕ → Result (Unit {0})
within created updated time =
    on_some (λ at. ensure (not (ltb at created || ltb updated at)) sqlite) time

abbrev is_status : WorkerTerminalStatus → WorkerTerminalStatus → Bool
is_status WorkerTerminalStatus.completed WorkerTerminalStatus.completed = true
is_status WorkerTerminalStatus.failed WorkerTerminalStatus.failed = true
is_status _ _ = false

-- A completed or failed row has the receipt of that status.
abbrev fits_status : WorkerHandoffState → WorkerTerminalStatus → Bool
fits_status WorkerHandoffState.completed status = is_status status WorkerTerminalStatus.completed
fits_status WorkerHandoffState.failed status = is_status status WorkerTerminalStatus.failed
fits_status _ status = true

abbrev pub receipt_of : WorkerTerminalRecord → WorkerTerminalReceipt
receipt_of terminal = record {
  status = terminal.status;
  checkpoint_sequence = terminal.checkpoint_sequence;
  terminal_ref = terminal.terminal_ref;
  result_digest = terminal.result_digest;
}

abbrev material_of : WorkerHandoffTuple → WorkerTerminalReceipt → Material
material_of tuple receipt = record {
  handoff_id = tuple.handoff_id;
  deployment_id = tuple.deployment_id;
  job_id = tuple.job_id;
  attempt_id = tuple.attempt_id;
  attempt_number = tuple.attempt_number;
  worker_owner_id = tuple.worker_owner_id;
  worker_profile_digest = tuple.worker_profile_digest;
  run_id = tuple.run_id;
  episode_id = tuple.episode_id;
  trajectory_id = tuple.trajectory_id;
  payload_digest = tuple.payload_digest;
  status = receipt.status;
  checkpoint_sequence = receipt.checkpoint_sequence;
  terminal_ref = receipt.terminal_ref;
  result_digest = receipt.result_digest;
}

abbrev pub is_text : Option String → String → Bool
is_text found value = is_some_and (λ text. str_eq text value) found

-- The five columns of a receipt are all there or all missing.
unfoldable pub terminal_from :
    Option WorkerTerminalStatus
    → Option String
    → Option String
    → Option String
    → Option ℕ
    → Result (Option WorkerTerminalRecord)
terminal_from none none none none none = ok none
terminal_from (some status) (some reference) (some result_digest) (some digest) (some sequence) = do
  ensure (leb sequence max_worker_wire_integer) sqlite
  validate_name reference max_terminal_ref_bytes
  validate_digest_value result_digest
  validate_digest_value digest
  ok (
      some (record {
        status = status;
        checkpoint_sequence = sequence;
        terminal_ref = reference;
        result_digest = result_digest;
        terminal_digest = digest;
      }))
terminal_from _ _ _ _ _ = err sqlite

module _ {Value Uuid : Type 0} (out : Outside Value Uuid) where
  unfoldable pub terminal_digest : WorkerHandoffTuple → WorkerTerminalReceipt → Result String
  terminal_digest tuple receipt = do
    text ← out.material_text (material_of tuple receipt)
    ok (out.codec.hex_digest text)

  -- The stored result of a receipt, and its digest.
  unfoldable pub compact_terminal_result : WorkerTerminalReceipt → Result (String × String)
  compact_terminal_result receipt = do
    text ← out.codec.to_text (out.receipt_json receipt)
    if ltb max_worker_result_bytes (byte_len text)
        then err invalid_input
        else ok (text, out.codec.hex_digest text)

  -- What a receipt that is there must be.
  unfoldable pub validate_terminal_receipt_columns :
      WorkerHandoffTuple
      → WorkerHandoffState
      → Option WorkerTerminalRecord
      → Option String
      → Result (Unit {0})
  unfolding terminal_digest compact_terminal_result
  validate_terminal_receipt_columns tuple state none terminal_result = ok tt
  validate_terminal_receipt_columns tuple state (some terminal) terminal_result = do
    expected ← terminal_digest tuple (receipt_of terminal)
    ensure (str_eq terminal.terminal_digest expected) sqlite
    compact ← compact_terminal_result (receipt_of terminal)
    ensure (is_text terminal_result compact.0) sqlite
    ensure (fits_status state terminal.status) sqlite

  unfoldable pub validate_terminal_projection :
      WorkerHandoffTuple
      → WorkerHandoffState
      → Option WorkerTerminalRecord
      → Option String
      → Bool
      → ℕ
      → ℕ
      → Option ℕ
      → Option ℕ
      → Option ℕ
      → Option ℕ
      → Result (Unit {0})
  unfolding is_terminal fits_lifecycle validate_terminal_receipt_columns
  validate_terminal_projection tuple state terminal terminal_result ack created updated dispatched
        admitted terminal_at acknowledged =
      do
        ensure (not (ltb updated created)) sqlite
        each (
            within created updated dispatched
            ∷ within created updated admitted
            ∷ within created updated terminal_at
            ∷ within created updated acknowledged
            ∷ [])
        ensure
            (same_presence (is_terminal state) (is_some terminal)
              && same_presence (is_terminal state) (is_some terminal_result))
            sqlite
        ensure (fits_lifecycle state ack dispatched admitted terminal_at acknowledged) sqlite
        each (
            in_order dispatched admitted
            ∷ in_order admitted terminal_at
            ∷ in_order dispatched terminal_at
            ∷ in_order terminal_at acknowledged
            ∷ [])
        validate_terminal_receipt_columns tuple state terminal terminal_result

  -- The required texts of a row and the checks of its identities.
  unfoldable pub validate_row_identity : HandoffRow → Result (Unit {0})
  validate_row_identity row = each (
      bounded_required_text 36 row.tuple.handoff_id
      ∷ bounded_required_text 128 row.tuple.deployment_id
      ∷ bounded_required_text 128 row.tuple.job_id
      ∷ bounded_required_text 36 row.tuple.attempt_id
      ∷ bounded_required_text 128 row.tuple.worker_owner_id
      ∷ bounded_required_text 64 row.tuple.worker_profile_digest
      ∷ bounded_required_text 36 row.tuple.run_id
      ∷ bounded_required_text 36 row.tuple.episode_id
      ∷ bounded_required_text 36 row.tuple.trajectory_id
      ∷ bounded_required_text 64 row.tuple.payload_digest
      ∷ bounded_required_text 36 row.watchdog_boot_id
      ∷ bounded_required_text 36 row.worker_boot_id
      ∷ bounded_required_text 128 row.operation
      ∷ ensure (str_eq row.operation worker_handoff_operation) sqlite
      ∷ bounded_required_text 65536 row.parameters
      ∷ ensure (str_eq row.parameters "{}") sqlite
      ∷ validate_tuple out row.tuple
      ∷ validate_uuid4 out row.watchdog_boot_id
      ∷ validate_uuid4 out row.worker_boot_id
      ∷ ensure (not (str_eq row.watchdog_boot_id row.worker_boot_id)) sqlite
      ∷ validate_digest_value row.tuple.worker_profile_digest
      ∷ validate_digest_value row.tuple.payload_digest
      ∷ ensure (not (row.mode_sequence == 0 || ltb max_worker_wire_integer row.mode_sequence))
          sqlite
      ∷ [])

  abbrev pub raw_of : HandoffRow → Value → Option WorkerTerminalRecord → RawHandoff Value
  raw_of row parameters terminal = record {
    tuple = row.tuple;
    watchdog_boot_id = row.watchdog_boot_id;
    worker_boot_id = row.worker_boot_id;
    mode_sequence = row.mode_sequence;
    operation = row.operation;
    parameters = parameters;
    state = row.state;
    terminal = terminal;
    terminal_result = or_marker 65536 "\u{1}" row.terminal_result;
    created_at_ms = row.created_at_ms;
    updated_at_ms = row.updated_at_ms;
    dispatched_at_ms = row.dispatched_at_ms;
    admitted_at_ms = row.admitted_at_ms;
    terminal_at_ms = row.terminal_at_ms;
    acknowledged_at_ms = row.acknowledged_at_ms;
  }

  -- The parameters of a row, parsed.
  unfoldable pub parameters_from : HandoffRow → Result Value
  parameters_from row = do
    parameters ← out.codec.from_text row.parameters
    if out.same_value parameters out.empty_object then ok parameters else err sqlite

  unfoldable pub terminal_from_row : HandoffRow → Result (Option WorkerTerminalRecord)
  unfolding terminal_from
  terminal_from_row row =
      terminal_from row.terminal_status (or_marker 1024 "\u{1}" row.terminal_ref)
        (or_marker 64 "\u{1}" row.result_digest) (or_marker 64 "\u{1}" row.terminal_digest)
        row.checkpoint_sequence

  unfoldable pub raw_handoff_from_row : HandoffRow → Result (RawHandoff Value)
  unfolding validate_row_identity parameters_from terminal_from_row validate_terminal_projection
  raw_handoff_from_row row = as_sqlite (do
    validate_row_identity row
    attempt_number ← sqlite_u32 row.tuple.attempt_number
    parameters ← parameters_from row
    terminal ← terminal_from_row row
    validate_terminal_projection row.tuple row.state terminal
        (or_marker 65536 "\u{1}" row.terminal_result) row.ack_intent row.created_at_ms
        row.updated_at_ms row.dispatched_at_ms row.admitted_at_ms row.terminal_at_ms
        row.acknowledged_at_ms
    ok (raw_of row parameters terminal))
