-- ===== src/Storage/Launch/Tests.antt =====
-- Launch intents at concrete inputs. Proofs are texts, printed and parsed as they are, none null.
use ascension_watchdog.Prelude.{
  ◌≤◌, ◌≡◌, refl, String, Bool, false, none, some, List, [], ◌∷◌, arith, inl,
}
use ascension_watchdog.Prelude.Lists.{count_where}
use ascension_watchdog.Config.{DesiredMode}
use ascension_watchdog.Error.{WatchdogError, ok, err}
use ascension_watchdog.Storage.Db.{proof_recorded, active, IntentRow, Store, commit}
use ascension_watchdog.Storage.Metadata.{
  validate_name, validate_detail, sqlite_timestamp, insert_audit_tx, audit_limit,
  metadata_from_conn, is_emergency_stop_audit_action, is_critical_audit_action, parse_mode,
  desired_mode_from,
}
use ascension_watchdog.Storage.Jobs.{Codec}
use ascension_watchdog.Storage.Launch.{
  is_unsettled_of, LaunchIntent, is_digest, intent_row, update_intent,
  require_running_launch_intent, activate_row, activate_tx, launch_intent_from_row, launch_intent,
  prepare_launch_intent, activate_launch_intent,
}
use ascension_watchdog.Storage.Launch.Cycle.{
  LaunchOp, prepare, record_proof, activate, clean, set_mode, launch_run, IsOwned, Lifeline,
  launch_run-IsOwned, launch_run-Lifeline,
}
use ascension_watchdog.Storage.Launch.Gates.{Activates, prepare-refused, activate-gate}

abbrev plain : Codec String
plain = record { to_text = λ v. ok v; from_text = λ t. ok t; hex_digest = λ t. t }

abbrev never_null : String → Bool
never_null proof = false

abbrev digest : String
digest = "aaaaaaaaaaaaaaaaaaaaaaaaaaaaaaaaaaaaaaaaaaaaaaaaaaaaaaaaaaaaaaaa"

abbrev recorded_row : IntentRow
recorded_row = record {
  id = "i1";
  deployment_id = "d1";
  component_id = "worker";
  launch_nonce = "n1";
  expected_incarnation = some "inc1";
  expected_launch_spec_digest = some digest;
  planned_containment_id = none;
  state = proof_recorded;
  ownership_proof_json = some "proof";
  created_at_ms = 10;
  updated_at_ms = 20;
}

abbrev store : Store
store = record {
  db = record {
    metadata =
        record { key = "desired_mode"; value = "running" }
        ∷ record { key = "updated_at_ms"; value = "0" }
        ∷ record { key = "deployment_id"; value = "d1" }
        ∷ [];
    audit = [];
    jobs = [];
    attempts = [];
    intents = recorded_row ∷ [];
    restarts = [];
    components = [];
    worker_binding = none;
    worker_control = none;
    worker_handoffs = [];
  };
  max_jobs = 2;
  max_payload_bytes = 100;
  restart_clock_epoch = "e1";
}

abbrev calls : List (LaunchOp String)
calls =
    prepare "i2" "worker" "n2" "inc2" digest none 30
    ∷ activate "i1" 40
    ∷ clean "i1" 50
    ∷ prepare "i2" "worker" "n2" "inc2" digest none 60
    ∷ record_proof "i2" "proof" 70
    ∷ set_mode DesiredMode.stopped 80
    ∷ activate "i2" 90
    ∷ []

one_open : (component : String) → count_where (is_unsettled_of component) store.db.intents ≤ 1
one_open component = ground arith

store-IsOwned : IsOwned store
store-IsOwned = record { single = one_open; proofs = (refl, tt) }

launch_run-IsOwned_example : IsOwned (launch_run plain never_null store calls)
launch_run-IsOwned_example = launch_run-IsOwned plain never_null store calls store-IsOwned

launch_run-Lifeline_example :
    (b : IntentRow) × (intent_row (launch_run plain never_null store calls).db "i1" ≡ some b)
    × Lifeline recorded_row b
launch_run-Lifeline_example =
    launch_run-Lifeline plain never_null store calls "i1" {a = recorded_row} refl

prepare-refused_example :
    (e : WatchdogError) × (prepare_launch_intent plain never_null store "i2" "worker" "n2" "inc2"
        digest none 30
      ≡ (err e, store))
prepare-refused_example =
    prepare-refused plain never_null store "i2" "worker" "n2" "inc2" digest none 30
      (inl (omega arith))

abbrev active_store : Store
active_store = (activate_launch_intent plain never_null store "i1" 40).1

abbrev active_intent : LaunchIntent String
active_intent = record {
  id = "i1";
  deployment_id = "d1";
  component_id = "worker";
  launch_nonce = "n1";
  expected_incarnation = some "inc1";
  expected_launch_spec_digest = some digest;
  planned_containment_id = none;
  state = active;
  ownership_proof_json = some "proof";
  created_at_ms = 10;
  updated_at_ms = 40;
}

activate-gate_example : Activates store.db active_store.db "i1" 40
unfolding activate_launch_intent activate_tx activate_row update_intent launch_intent
    launch_intent_from_row is_digest commit validate_name validate_detail sqlite_timestamp
    insert_audit_tx audit_limit is_emergency_stop_audit_action is_critical_audit_action
    desired_mode_from parse_mode metadata_from_conn require_running_launch_intent
activate-gate_example =
    activate-gate plain never_null store "i1" 40 {intent = active_intent} {s' = active_store} refl
