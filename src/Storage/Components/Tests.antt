-- ===== src/Storage/Components/Tests.antt =====
-- Component rows and the durable restart budget at concrete inputs.
use ascension_watchdog.Prelude.{ℕ, ◌+◌, ◌-◌, ◌≤◌, ◌≡◌, refl, String, none, some, [], ◌∷◌, arith}
use ascension_watchdog.Error.{ok}
use ascension_watchdog.Policy.Decide.{ComponentState}
use ascension_watchdog.Storage.Db.{RestartRow, ComponentRow, Store, commit}
use ascension_watchdog.Storage.Metadata.{
  validate_name, validate_detail, sqlite_timestamp, insert_audit_tx, audit_limit,
  is_emergency_stop_audit_action, is_critical_audit_action,
}
use ascension_watchdog.Storage.Components.{
  ComponentRecord, ProcessIdentity, component_state_as_str, counted, restart_total,
  restart_count_with_elapsed, observed_elapsed, record_restart_tx, record_restart_with_elapsed,
  upsert_row, upsert_tx, upsert_component, component,
}
use ascension_watchdog.Storage.Components.Restarts.{record_restart-adds, restart_count-survives}
use ascension_watchdog.Storage.Components.Rows.{upsert-component}

abbrev restart_at : String → ℕ → RestartRow
restart_at epoch elapsed = record {
  component_id = "worker";
  occurred_at_ms = 5;
  clock_epoch = epoch;
  clock_elapsed_ms = elapsed;
}

abbrev component_of : ℕ → ComponentRow
component_of now = record {
  id = "worker";
  state = "running";
  launch_nonce = none;
  pid = none;
  executable_digest = none;
  started_at_ms = none;
  restart_attempts = 0;
  last_restart_at_ms = none;
  last_error = none;
  identity_json = none;
  updated_at_ms = now;
}

abbrev store : Store
store = record {
  db = record {
    metadata = [];
    audit = [];
    jobs = [];
    attempts = [];
    intents = [];
    restarts = restart_at "e0" 900 ∷ restart_at "e1" 10 ∷ restart_at "e1" 50 ∷ [];
    components = component_of 3 ∷ [];
    worker_binding = none;
    worker_control = none;
    worker_handoffs = [];
  };
  max_jobs = 2;
  max_payload_bytes = 100;
  restart_clock_epoch = "e1";
}

abbrev recorded_store : Store
recorded_store = (record_restart_with_elapsed store "worker" 7 120 100).1

record_restart-adds_example :
    (3 ≡ counted store.db "worker" "e1" 20 + 1)
    × (counted recorded_store.db "worker" "e1" (130 - 100)
        ≡ counted store.db "worker" "e1" (130 - 100) + 1)
unfolding record_restart_with_elapsed record_restart_tx observed_elapsed restart_total commit
    validate_name validate_detail sqlite_timestamp insert_audit_tx audit_limit
    is_emergency_stop_audit_action is_critical_audit_action
record_restart-adds_example =
    record_restart-adds store "worker" 7 120 100 130 {n = 3} {s' = recorded_store} refl
      (omega arith) (omega arith)

restart_count-survives_example : 2 ≤ 3
unfolding restart_count_with_elapsed restart_total validate_name sqlite_timestamp
restart_count-survives_example =
    restart_count-survives store "worker" "e2" 130 100 0 100 {n = 2} {m = 3} refl refl refl

abbrev observed : ComponentRecord
observed = record {
  id = "worker";
  state = ComponentState.suspect;
  launch_nonce = some "n1";
  pid = some 77;
  executable_digest = none;
  started_at_ms = some 20;
  restart_attempts = 2;
  last_restart_at_ms = none;
  last_error = some "late";
}

abbrev observed_store : Store
observed_store = (upsert_component store observed 30).1

upsert-component_example : component observed_store "worker" ≡ ok (some observed)
unfolding upsert_component upsert_tx upsert_row component_state_as_str commit validate_name
    validate_detail sqlite_timestamp insert_audit_tx audit_limit is_emergency_stop_audit_action
    is_critical_audit_action
upsert-component_example =
    upsert-component store observed 30 {s' = observed_store} refl (omega arith) (omega arith)

abbrev identity : ProcessIdentity
identity = record {
  pid = 77;
  launch_nonce = "n1";
  executable = "/opt/worker";
  executable_digest = "d";
  started_at_ms = 20;
  creation_fingerprint = none;
}
