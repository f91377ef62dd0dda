-- ===== src/Storage/Metadata.antt =====
-- crates/watchdog/src/storage_metadata.rs: metadata access, the bounded audit ledger, the desired
-- mode, and the value guards that the storage modules share.
pub mod Ledger
pub mod Mode
pub mod Tests
use text.Mathlib.Text.{starts_with}
use ascension_watchdog.Prelude.{
  ℕ, ◌+◌, ◌-◌, Bool, true, false, ◌&&◌, ◌||◌, String, Option, none, some, List, [], ◌∷◌, ◌++◌,
  str_eq, suc, zero,
}
use ascension_watchdog.Prelude.Tests.{ltb, leb, ◌==◌, if◌then◌else◌}
use ascension_watchdog.Prelude.Lists.{length, count_where, find_where, update_where}
use ascension_watchdog.Prelude.Word.{u32_max, i64_max}
use ascension_watchdog.Prelude.Text.{byte_len, has_control, has_zero, to_string}
use ascension_watchdog.Error.{Result, ok, err, conflict, invalid_input, sqlite, ◌>>=◌, ◌>>◌}
use ascension_watchdog.Config.{DesiredMode, stopped, paused, running, draining}
use ascension_watchdog.Storage.Db.{Db, Store, MetadataRow, AuditRow, commit}

abbrev pub max_audit_detail_bytes : ℕ
max_audit_detail_bytes = 16384

abbrev pub max_audit_records : ℕ
max_audit_records = 4096

abbrev pub reserved_critical_audit_records : ℕ
reserved_critical_audit_records = 8

abbrev pub reserved_stop_audit_records : ℕ
reserved_stop_audit_records = 1

abbrev value_of : Option MetadataRow → Option String
value_of none = none
value_of (some row) = some row.value

unfoldable pub metadata_from_conn : Db → String → Option String
metadata_from_conn db key = value_of (find_where (λ row. str_eq row.key key) db.metadata)

-- `UPDATE metadata SET value=? WHERE key=?`
unfoldable pub update_metadata_tx : Db → String → String → Result Db
update_metadata_tx db key value =
    let matches = λ (row : MetadataRow). str_eq row.key key in
    if count_where matches db.metadata == 1
    then ok (record db {
      metadata = update_where matches (λ row. record row { value = value }) db.metadata;
    })
    else err conflict

abbrev validate : Bool → Result (Unit {0})
validate rejected = if rejected then err invalid_input else ok tt

unfoldable pub validate_name : String → ℕ → Result (Unit {0})
validate_name value max_bytes =
    validate
      (byte_len value == 0 || ltb max_bytes (byte_len value) || has_zero value || has_control value)

unfoldable pub validate_detail : String → Result (Unit {0})
validate_detail value = validate (ltb max_audit_detail_bytes (byte_len value) || has_zero value)

-- `i64::try_from(value)` of a `u64`.
unfoldable pub sqlite_timestamp : ℕ → Result ℕ
sqlite_timestamp value = if leb value i64_max then ok value else err invalid_input

-- `u32::try_from(value)` of a stored integer.
unfoldable pub sqlite_u32 : ℕ → Result ℕ
sqlite_u32 value = if leb value u32_max then ok value else err sqlite

unfoldable pub is_critical_audit_action : String → Bool
is_critical_audit_action action =
    str_eq action "desired_mode_changed"
    || starts_with action "operator_command_"
    || str_eq action "store_restored_new_watchdog_namespace"

unfoldable pub is_emergency_stop_audit_action : String → Bool
is_emergency_stop_audit_action action = str_eq action "operator_command_stop_accepted"

-- The retention limit that applies to an action.
unfoldable pub audit_limit : String → ℕ
audit_limit action =
    if is_emergency_stop_audit_action action
    then max_audit_records + reserved_stop_audit_records
    else if is_critical_audit_action action
    then max_audit_records
    else max_audit_records - reserved_critical_audit_records

unfoldable pub insert_audit_tx : Db → String → String → ℕ → Result Db
insert_audit_tx db action detail now_ms = do
  validate_name action 128
  validate_detail detail
  if leb (audit_limit action) (length db.audit) then err conflict else do
    timestamp ← sqlite_timestamp now_ms
    ok (record db {
      audit =
          db.audit ++ record { action = action; detail = detail; occurred_at_ms = timestamp } ∷ [];
    })

unfoldable pub mode_as_str : DesiredMode → String
mode_as_str stopped = "stopped"
mode_as_str paused = "paused"
mode_as_str running = "running"
mode_as_str draining = "draining"

unfoldable pub parse_mode : String → Result DesiredMode
parse_mode value =
    if str_eq value "stopped"
    then ok stopped
    else if str_eq value "paused"
    then ok paused
    else if str_eq value "running"
    then ok running
    else if str_eq value "draining"
    then ok draining
    else err conflict

abbrev required : Option String → Result String
required none = err conflict
required (some value) = ok value

unfoldable pub desired_mode_from : Db → Result DesiredMode
desired_mode_from db = do value ← required (metadata_from_conn db "desired_mode"); parse_mode value

-- `Store::desired_mode`
unfoldable pub desired_mode : Store → Result DesiredMode
unfolding desired_mode_from
desired_mode s = desired_mode_from s.db

unfoldable pub set_desired_mode_tx : Db → DesiredMode → ℕ → Result Db
set_desired_mode_tx db mode now_ms = do
  db1 ← update_metadata_tx db "desired_mode" (mode_as_str mode)
  db2 ← update_metadata_tx db1 "updated_at_ms" (to_string now_ms)
  insert_audit_tx db2 "desired_mode_changed" (mode_as_str mode) now_ms

unfoldable pub set_desired_mode_at : Store → DesiredMode → ℕ → Result (Unit {0}) × Store
unfolding set_desired_mode_tx commit
set_desired_mode_at s mode now_ms =
    commit s (do db ← set_desired_mode_tx s.db mode now_ms; ok (tt, db))

-- `Store::audit`
unfoldable pub audit : Store → String → String → ℕ → Result (Unit {0}) × Store
unfolding commit
audit s action detail now_ms = commit s (do
  validate_name action 128
  validate_detail detail
  db ← insert_audit_tx s.db action detail now_ms
  ok (tt, db))
