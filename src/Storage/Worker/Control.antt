-- ===== src/Storage/Worker/Control.antt =====
-- crates/watchdog/src/storage_worker_claims_{state,lifecycle,validation}.rs: the immutable binding
-- of the worker and its acknowledged control, as stored, read, and checked inside a transaction.
use Prim.Native.String
use ascension_watchdog.Prelude.{
  ℕ, Bool, true, false, ◌&&◌, not, String, Option, none, some, [], ◌∷◌, str_eq,
}
use ascension_watchdog.Prelude.Tests.{ltb, leb, ◌==◌, if◌then◌else◌}
use ascension_watchdog.Prelude.Text.{byte_len, to_string}
use ascension_watchdog.Config.{DesiredMode}
use ascension_watchdog.Error.{Result, ok, err, ensure, as_sqlite, conflict, sqlite, ◌>>=◌, ◌>>◌}
use ascension_watchdog.Storage.Db.{Db, Store, commit}
use ascension_watchdog.Storage.Metadata.{sqlite_timestamp, insert_audit_tx, desired_mode_from}
use ascension_watchdog.Storage.Worker.Types.{
  worker_handoff_schema_digest, WorkerBinding, WorkerControlMode, WorkerControlWitness,
  WorkerClaimWitness, BindingRow, ControlRow, control_mode_as_str,
}
use ascension_watchdog.Storage.Worker.Outside.{Outside}
use ascension_watchdog.Storage.Worker.Validate.{
  each, required, validate_worker_identity, validate_digest_value, validate_binding,
  validate_control, validate_control_against_binding,
}

-- `CASE WHEN length(CAST(column AS BLOB)) <= n THEN column END`, and an error at NULL.
unfoldable pub bounded_required_text : ℕ → String → Result (Unit {0})
bounded_required_text n value = ensure (leb (byte_len value) n) sqlite

unfoldable pub same_mode : WorkerControlMode → WorkerControlMode → Bool
same_mode WorkerControlMode.running WorkerControlMode.running = true
same_mode WorkerControlMode.paused WorkerControlMode.paused = true
same_mode WorkerControlMode.draining WorkerControlMode.draining = true
same_mode WorkerControlMode.stopped WorkerControlMode.stopped = true
same_mode _ _ = false

-- `==` on bindings, and on controls.
unfoldable pub same_binding : WorkerBinding → WorkerBinding → Bool
same_binding a b =
    str_eq a.deployment_id b.deployment_id
    && str_eq a.worker_owner_id b.worker_owner_id
    && str_eq a.worker_profile_digest b.worker_profile_digest
    && str_eq a.release_digest b.release_digest
    && str_eq a.config_digest b.config_digest
    && str_eq a.schema_digest b.schema_digest

unfoldable pub same_control : WorkerControlWitness → WorkerControlWitness → Bool
unfolding same_mode
same_control a b =
    str_eq a.deployment_id b.deployment_id
    && str_eq a.worker_owner_id b.worker_owner_id
    && str_eq a.worker_profile_digest b.worker_profile_digest
    && str_eq a.watchdog_boot_id b.watchdog_boot_id
    && str_eq a.worker_boot_id b.worker_boot_id
    && same_mode a.mode b.mode
    && a.mode_sequence == b.mode_sequence

unfoldable pub binding_from_row : BindingRow → Result WorkerBinding
unfolding bounded_required_text
binding_from_row row = as_sqlite (do
  each (
      bounded_required_text 128 row.binding.deployment_id
      ∷ bounded_required_text 128 row.binding.worker_owner_id
      ∷ bounded_required_text 64 row.binding.worker_profile_digest
      ∷ bounded_required_text 64 row.binding.release_digest
      ∷ bounded_required_text 64 row.binding.config_digest
      ∷ bounded_required_text 64 row.binding.schema_digest
      ∷ validate_worker_identity row.binding.deployment_id
      ∷ validate_worker_identity row.binding.worker_owner_id
      ∷ validate_digest_value row.binding.worker_profile_digest
      ∷ validate_digest_value row.binding.release_digest
      ∷ validate_digest_value row.binding.config_digest
      ∷ validate_digest_value row.binding.schema_digest
      ∷ [])
  ensure (str_eq row.binding.schema_digest worker_handoff_schema_digest) sqlite
  ok row.binding)

-- `.optional()`
abbrev pub optional {ℓ κ} :
    {A : Type ℓ} {B : Type κ} → (A → Result B) → Option A → Result (Option B)
optional read none = ok none
optional read (some row) = do value ← read row; ok (some value)

abbrev validate_found : Db → Option WorkerBinding → Result (Unit {0})
validate_found db none = ok tt
validate_found db (some binding) = validate_binding db binding

-- `binding_from_conn` and `binding_from_tx`
unfoldable pub binding_from_tx : Db → Result (Option WorkerBinding)
unfolding binding_from_row
binding_from_tx db = do
  found ← optional binding_from_row db.worker_binding
  validate_found db found
  ok found

unfoldable pub ensure_phase_time_at_least : ℕ → ℕ → Result (Unit {0})
ensure_phase_time_at_least now_ms previous = if ltb now_ms previous then err conflict else ok tt

abbrev binding_row : WorkerBinding → ℕ → BindingRow
binding_row binding now = record { binding = binding; updated_at_ms = now }

-- What `configure_worker_binding_at` does with the binding that is there.
unfoldable pub configure_found :
    Db → Option WorkerBinding → WorkerBinding → ℕ → Result (WorkerBinding × Db)
unfolding same_binding
configure_found db (some existing) binding now_ms =
    if not (same_binding existing binding) then err conflict else ok (binding, db)
configure_found db none binding now_ms = do
  now ← sqlite_timestamp now_ms
  written ←
      insert_audit_tx (record db { worker_binding = some (binding_row binding now) })
        "worker_binding_configured" binding.worker_owner_id now_ms
  ok (binding, written)

unfoldable pub configure_tx : Db → WorkerBinding → ℕ → Result (WorkerBinding × Db)
unfolding configure_found binding_from_row validate_binding
configure_tx db binding now_ms = do
  validate_binding db binding
  existing ← optional binding_from_row db.worker_binding
  configure_found db existing binding now_ms

unfoldable pub configure_worker_binding_at :
    Store → WorkerBinding → ℕ → Result WorkerBinding × Store
unfolding configure_tx commit
configure_worker_binding_at s binding now_ms = commit s (configure_tx s.db binding now_ms)

-- `INSERT INTO worker_control .. ON CONFLICT DO UPDATE`, and its audit.
unfoldable pub write_control : Db → WorkerControlWitness → ℕ → Result (WorkerControlWitness × Db)
write_control db control now_ms = do
  sequence ← sqlite_timestamp control.mode_sequence
  now ← sqlite_timestamp now_ms
  written ←
      insert_audit_tx
        (record db {
          worker_control = some (record {
            control = record control { mode_sequence = sequence };
            updated_at_ms = now;
          });
        })
        "worker_control_mode_set"
        (String.◌++◌ (control_mode_as_str control.mode)
          (String.◌++◌ ":" (to_string control.mode_sequence)))
        now_ms
  ok (control, written)

abbrev pub previous_time : Option ControlRow → ℕ
previous_time none = 0
previous_time (some row) = row.updated_at_ms

-- What `set_worker_control_at` does with the control that is there.
unfoldable pub set_control_found :
    Db → Option WorkerControlWitness → WorkerControlWitness → ℕ → Result (WorkerControlWitness × Db)
unfolding write_control same_control ensure_phase_time_at_least
set_control_found db none control now_ms = write_control db control now_ms
set_control_found db (some existing) control now_ms = do
  ensure_phase_time_at_least now_ms (previous_time db.worker_control)
  if ltb control.mode_sequence existing.mode_sequence
      then err conflict
      else if control.mode_sequence == existing.mode_sequence
      then (if not (same_control control existing) then err conflict else ok (control, db))
      else write_control db control now_ms

abbrev pub is_running_desired : DesiredMode → Bool
is_running_desired DesiredMode.running = true
is_running_desired _ = false

-- The durable mode must be running.
unfoldable pub require_running_desired : Db → Result (Unit {0})
require_running_desired db = do
  desired ← desired_mode_from db
  ensure (is_running_desired desired) conflict

module _ {Value Uuid : Type 0} (out : Outside Value Uuid) where
  unfoldable pub control_from_row : ControlRow → Result WorkerControlWitness
  unfolding bounded_required_text
  control_from_row row = as_sqlite (do
    each (
        bounded_required_text 128 row.control.deployment_id
        ∷ bounded_required_text 128 row.control.worker_owner_id
        ∷ bounded_required_text 64 row.control.worker_profile_digest
        ∷ bounded_required_text 36 row.control.watchdog_boot_id
        ∷ bounded_required_text 36 row.control.worker_boot_id
        ∷ validate_control out row.control
        ∷ [])
    ok row.control)

  -- `control_from_conn` and `control_from_tx`
  unfoldable pub control_from_tx : Db → Result (Option WorkerControlWitness)
  unfolding control_from_row
  control_from_tx db = optional control_from_row db.worker_control

  unfoldable pub set_control_tx : Db → WorkerControlWitness → ℕ → Result (WorkerControlWitness × Db)
  unfolding set_control_found control_from_tx binding_from_tx
  set_control_tx db control now_ms = do
    validate_control out control
    found ← binding_from_tx db
    binding ← required found
    validate_control_against_binding control binding
    existing ← control_from_tx db
    set_control_found db existing control now_ms

  unfoldable pub set_worker_control_at :
      Store → WorkerControlWitness → ℕ → Result WorkerControlWitness × Store
  unfolding set_control_tx commit
  set_worker_control_at s control now_ms = commit s (set_control_tx s.db control now_ms)

  -- `current_worker_control`
  unfoldable pub current_worker_control : Store → Result (Option WorkerControlWitness)
  unfolding control_from_tx binding_from_tx
  current_worker_control s = do
    found ← control_from_tx s.db
    elim found [
      | none ↦ ok none
      | some control ↦ do
        configured ← binding_from_tx s.db
        binding ← required configured
        validate_control_against_binding control binding
        ok (some control)
    ]

  abbrev claim_witness_of : WorkerBinding → WorkerControlWitness → WorkerClaimWitness
  claim_witness_of binding control = record {
    deployment_id = binding.deployment_id;
    worker_owner_id = binding.worker_owner_id;
    worker_profile_digest = binding.worker_profile_digest;
    release_digest = binding.release_digest;
    config_digest = binding.config_digest;
    schema_digest = binding.schema_digest;
    watchdog_boot_id = control.watchdog_boot_id;
    worker_boot_id = control.worker_boot_id;
    mode_sequence = control.mode_sequence;
  }

  -- The witness of a binding and a control that were read. The durable mode is read only where
  -- the control is running.
  unfoldable pub claim_witness_from :
      Db
      → Option WorkerBinding
      → Result (Option WorkerControlWitness)
      → Result (Option WorkerClaimWitness)
  unfolding same_mode
  claim_witness_from db none control = ok none
  claim_witness_from db (some binding) control = do
    found ← control
    elim found [
      | none ↦ ok none
      | some current ↦ do
        validate_control_against_binding current binding
        if not (same_mode current.mode WorkerControlMode.running) then ok none else do
          desired ← desired_mode_from db
          if not (is_running_desired desired)
              then ok none
              else ok (some (claim_witness_of binding current))
    ]

  unfoldable pub current_worker_claim_witness : Store → Result (Option WorkerClaimWitness)
  unfolding claim_witness_from control_from_tx binding_from_tx
  current_worker_claim_witness s = do
    binding ← binding_from_tx s.db
    claim_witness_from s.db binding (control_from_tx s.db)

  abbrev pub expected_binding : WorkerClaimWitness → WorkerBinding
  expected_binding witness = record {
    deployment_id = witness.deployment_id;
    worker_owner_id = witness.worker_owner_id;
    worker_profile_digest = witness.worker_profile_digest;
    release_digest = witness.release_digest;
    config_digest = witness.config_digest;
    schema_digest = witness.schema_digest;
  }

  abbrev pub expected_control : WorkerClaimWitness → WorkerControlWitness
  expected_control witness = record {
    deployment_id = witness.deployment_id;
    worker_owner_id = witness.worker_owner_id;
    worker_profile_digest = witness.worker_profile_digest;
    watchdog_boot_id = witness.watchdog_boot_id;
    worker_boot_id = witness.worker_boot_id;
    mode = WorkerControlMode.running;
    mode_sequence = witness.mode_sequence;
  }

  unfoldable pub validate_claim_witness_tx : Db → WorkerClaimWitness → Result (Unit {0})
  unfolding control_from_tx binding_from_tx same_binding same_control require_running_desired
  validate_claim_witness_tx db witness = do
    found ← binding_from_tx db
    binding ← required found
    ensure (same_binding binding (expected_binding witness)) conflict
    acknowledged ← control_from_tx db
    control ← required acknowledged
    ensure (same_control control (expected_control witness)) conflict
    require_running_desired db
