-- ===== src/Storage/Metadata/Tests.antt =====
-- The metadata and the audit ledger at concrete inputs.
use ascension_watchdog.Prelude.{none, ◌≡◌, refl, List, [], ◌∷◌, arith, inl}
use ascension_watchdog.Prelude.Text.{to_string}
use ascension_watchdog.Config.{DesiredMode}
use ascension_watchdog.Error.{ok}
use ascension_watchdog.Storage.Db.{Db, Store, commit}
use ascension_watchdog.Storage.Metadata.{
  validate_name, validate_detail, sqlite_timestamp, insert_audit_tx, audit_limit,
  update_metadata_tx, is_emergency_stop_audit_action, is_critical_audit_action, mode_as_str,
  set_desired_mode_tx, set_desired_mode_at,
}
use ascension_watchdog.Storage.Metadata.Ledger.{Event, attempt_all, reserves_hold}
use ascension_watchdog.Storage.Metadata.Mode.{Changed, set_desired_mode-Changed}

abbrev db : Db
db = record {
  metadata =
      record { key = "desired_mode"; value = "stopped" }
      ∷ record { key = "updated_at_ms"; value = "0" }
      ∷ [];
  audit = [];
  jobs = [];
  attempts = [];
  intents = [];
  restarts = [];
  components = [];
  worker_binding = none;
  worker_control = none;
  worker_handoffs = [];
}

abbrev store : Store
store = record { db = db; max_jobs = 2; max_payload_bytes = 100; restart_clock_epoch = "e1" }

abbrev events : List Event
events = record { action = "job_submitted"; detail = "j1"; now_ms = 10 } ∷ []

reserves_hold_example :
    (db' : Db) × (insert_audit_tx (attempt_all db events) "operator_command_pause_accepted" "c1" 20
      ≡ ok db')
unfolding validate_name validate_detail is_critical_audit_action is_emergency_stop_audit_action
reserves_hold_example =
    reserves_hold db events "operator_command_pause_accepted" "c1" 20 refl refl refl (omega arith)
      (inl (((refl, refl), tt), refl))

abbrev running_store : Store
running_store = (set_desired_mode_at store DesiredMode.running 30).1

set_desired_mode-Changed_example : Changed db DesiredMode.running 30 running_store.db
unfolding set_desired_mode_at set_desired_mode_tx mode_as_str update_metadata_tx to_string
    insert_audit_tx audit_limit validate_name validate_detail is_critical_audit_action
    is_emergency_stop_audit_action sqlite_timestamp commit
set_desired_mode-Changed_example =
    set_desired_mode-Changed store DesiredMode.running 30 {s' = running_store} refl
