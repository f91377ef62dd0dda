-- ===== src/Storage/Components.antt =====
-- crates/watchdog/src/storage_components.rs: the durable restart budget and the component rows.
pub mod Restarts
pub mod Rows
pub mod Tests
use ascension_watchdog.Prelude.{
  ℕ, ◌+◌, ◌-◌, Bool, true, false, ◌&&◌, ◌||◌, not, String, Option, none, some, List, [], ◌∷◌, ◌++◌,
  str_eq, max,
}
use ascension_watchdog.Prelude.Tests.{ltb, leb, ◌==◌, if◌then◌else◌}
use ascension_watchdog.Prelude.Lists.{count_where, keep_where, find_where, update_where}
use ascension_watchdog.Prelude.Word.{u32_max}
use ascension_watchdog.Prelude.Text.{byte_len}
use ascension_watchdog.Error.{
  as_sqlite, Result, ok, err, ensure, conflict, invalid_input, not_found, sqlite, ◌>>=◌, ◌>>◌,
}
use ascension_watchdog.Policy.Decide.{ComponentState}
use ascension_watchdog.Storage.Db.{RestartRow, ComponentRow, Db, Store, commit}
use ascension_watchdog.Storage.Metadata.{
  validate_name, validate_detail, sqlite_timestamp, sqlite_u32, insert_audit_tx,
}

pub record ComponentRecord : Type 0 where
  pub id : String
  pub state : ComponentState
  pub launch_nonce : Option String
  pub pid : Option ℕ
  pub executable_digest : Option String
  pub started_at_ms : Option ℕ
  pub restart_attempts : ℕ
  pub last_restart_at_ms : Option ℕ
  pub last_error : Option String

unfoldable pub component_state_as_str : ComponentState → String
component_state_as_str ComponentState.stopped = "stopped"
component_state_as_str ComponentState.starting = "starting"
component_state_as_str ComponentState.running = "running"
component_state_as_str ComponentState.suspect = "suspect"
component_state_as_str ComponentState.backoff = "backoff"
component_state_as_str ComponentState.paused = "paused"
component_state_as_str ComponentState.blocked = "blocked"
component_state_as_str ComponentState.quarantined = "quarantined"

unfoldable pub component_state_parse : String → Result ComponentState
component_state_parse value =
    if str_eq value "stopped"
    then ok ComponentState.stopped
    else if str_eq value "starting"
    then ok ComponentState.starting
    else if str_eq value "running"
    then ok ComponentState.running
    else if str_eq value "suspect"
    then ok ComponentState.suspect
    else if str_eq value "backoff"
    then ok ComponentState.backoff
    else if str_eq value "paused"
    then ok ComponentState.paused
    else if str_eq value "blocked"
    then ok ComponentState.blocked
    else if str_eq value "quarantined"
    then ok ComponentState.quarantined
    else err conflict

abbrev pub sqlite_optional_u32 : Option ℕ → Result (Option ℕ)
sqlite_optional_u32 none = ok none
sqlite_optional_u32 (some n) = do small ← sqlite_u32 n; ok (some small)

unfoldable pub component_record_from_row : ComponentRow → Result ComponentRecord
unfolding component_state_parse
component_record_from_row row = do
  state ← as_sqlite (component_state_parse row.state)
  pid ← sqlite_optional_u32 row.pid
  restart_attempts ← sqlite_u32 row.restart_attempts
  ok (record {
    id = row.id;
    state = state;
    launch_nonce = row.launch_nonce;
    pid = pid;
    executable_digest = row.executable_digest;
    started_at_ms = row.started_at_ms;
    restart_attempts = restart_attempts;
    last_restart_at_ms = row.last_restart_at_ms;
    last_error = row.last_error;
  })

-- `component_id=? AND (clock_epoch <> ? OR clock_elapsed_ms >= ?)`
abbrev pub is_counted : String → String → ℕ → RestartRow → Bool
is_counted component_id epoch cutoff row =
    str_eq row.component_id component_id
    && (not (str_eq row.clock_epoch epoch) || leb cutoff row.clock_elapsed_ms)

-- `component_id=? AND clock_epoch=?`
abbrev pub is_of_epoch : String → String → RestartRow → Bool
is_of_epoch component_id epoch row =
    str_eq row.component_id component_id && str_eq row.clock_epoch epoch

abbrev pub counted : Db → String → String → ℕ → ℕ
counted db component_id epoch cutoff =
    count_where (is_counted component_id epoch cutoff) db.restarts

-- `u32::try_from(count)`
unfoldable pub restart_total : ℕ → Result ℕ
restart_total n = if leb n u32_max then ok n else err conflict

unfoldable pub restart_count_with_elapsed : Store → String → ℕ → ℕ → Result ℕ
unfolding restart_total
restart_count_with_elapsed s component_id elapsed_ms window_ms = do
  validate_name component_id 128
  cutoff ← sqlite_timestamp (elapsed_ms - window_ms)
  restart_total (counted s.db component_id s.restart_clock_epoch cutoff)

-- `MAX(clock_elapsed_ms)` of the rows of the component and the epoch, and the observation; without
-- a row the observation alone.
unfoldable pub observed_elapsed : List RestartRow → ℕ → ℕ
observed_elapsed [] elapsed_ms = elapsed_ms
observed_elapsed (row ∷ rows) elapsed_ms =
    max row.clock_elapsed_ms (observed_elapsed rows elapsed_ms)

-- `component_id=? AND clock_epoch=? AND clock_elapsed_ms < ?`, the rows that are deleted.
abbrev pub is_expired : String → String → ℕ → RestartRow → Bool
is_expired component_id epoch cutoff row =
    is_of_epoch component_id epoch row && ltb row.clock_elapsed_ms cutoff

abbrev pub observed_at : Db → String → String → ℕ → ℕ
observed_at db component_id epoch elapsed_ms =
    observed_elapsed (keep_where (is_of_epoch component_id epoch) db.restarts) elapsed_ms

unfoldable pub record_restart_tx : Db → String → String → ℕ → ℕ → ℕ → Result (ℕ × Db)
unfolding observed_elapsed
record_restart_tx db epoch component_id now_ms elapsed_ms window_ms = do
  validate_name component_id 128
  cutoff ← sqlite_timestamp (observed_at db component_id epoch elapsed_ms - window_ms)
  now ← sqlite_timestamp now_ms
  elapsed ← sqlite_timestamp (observed_at db component_id epoch elapsed_ms)
  written ←
      insert_audit_tx
        (record db {
          restarts =
              keep_where (λ row. not (is_expired component_id epoch cutoff row)) db.restarts
              ++ record {
                component_id = component_id;
                occurred_at_ms = now;
                clock_epoch = epoch;
                clock_elapsed_ms = elapsed;
              }
                ∷ [];
        })
        "component_restart_recorded" component_id now_ms
  ok (counted written component_id epoch cutoff, written)

-- The narrowing of the count follows the commit.
abbrev narrowed : Result ℕ × Store → Result ℕ × Store
narrowed (r, s) = (do n ← r; restart_total n, s)

unfoldable pub record_restart_with_elapsed : Store → String → ℕ → ℕ → ℕ → Result ℕ × Store
unfolding record_restart_tx commit restart_total
record_restart_with_elapsed s component_id now_ms elapsed_ms window_ms = narrowed (
    commit s
      (record_restart_tx s.db s.restart_clock_epoch component_id now_ms elapsed_ms window_ms))

abbrev pub optional_detail : Option String → Result (Unit {0})
optional_detail none = ok tt
optional_detail (some error) = validate_detail error

abbrev pub optional_timestamp : Option ℕ → Result (Option ℕ)
optional_timestamp none = ok none
optional_timestamp (some at) = do t ← sqlite_timestamp at; ok (some t)

-- The row that an observation inserts.
abbrev pub component_row : ComponentRecord → Option ℕ → Option ℕ → ℕ → ComponentRow
component_row r started last_restart now = record {
  id = r.id;
  state = component_state_as_str r.state;
  launch_nonce = r.launch_nonce;
  pid = r.pid;
  executable_digest = r.executable_digest;
  started_at_ms = started;
  restart_attempts = r.restart_attempts;
  last_restart_at_ms = last_restart;
  last_error = r.last_error;
  identity_json = none;
  updated_at_ms = now;
}

-- `CASE WHEN excluded.launch_nonce IS NULL THEN NULL ELSE components.identity_json END`
abbrev pub kept_identity : Option String → Option String → Option String
kept_identity none old = none
kept_identity (some nonce) old = old

-- `INSERT INTO components .. ON CONFLICT(id) DO UPDATE`
unfoldable pub upsert_row : Db → ComponentRow → Db
upsert_row db row =
    let matches = λ (other : ComponentRow). str_eq other.id row.id in
    if count_where matches db.components == 0
    then record db { components = db.components ++ row ∷ [] }
    else record db {
      components =
          update_where matches
            (λ other. record row {
              id = other.id;
              identity_json = kept_identity row.launch_nonce other.identity_json;
            })
            db.components;
    }

unfoldable pub upsert_tx : Db → ComponentRecord → ℕ → Result (Unit {0} × Db)
unfolding upsert_row component_state_as_str
upsert_tx db r now_ms = do
  validate_name r.id 128
  optional_detail r.last_error
  started ← optional_timestamp r.started_at_ms
  last_restart ← optional_timestamp r.last_restart_at_ms
  now ← sqlite_timestamp now_ms
  ok (tt, upsert_row db (component_row r started last_restart now))

unfoldable pub upsert_component : Store → ComponentRecord → ℕ → Result (Unit {0}) × Store
unfolding upsert_tx commit
upsert_component s r now_ms = commit s (upsert_tx s.db r now_ms)

abbrev pub row_of : Db → String → Option ComponentRow
row_of db id = find_where (λ row. str_eq row.id id) db.components

abbrev decoded : Option ComponentRow → Result (Option ComponentRecord)
decoded none = ok none
decoded (some row) = do r ← component_record_from_row row; ok (some r)

unfoldable pub component : Store → String → Result (Option ComponentRecord)
unfolding component_record_from_row
component s id = decoded (row_of s.db id)

-- `ProcessIdentity` (process/identity.rs); its path is text.
pub record ProcessIdentity : Type 0 where
  pub pid : ℕ
  pub launch_nonce : String
  pub executable : String
  pub executable_digest : String
  pub started_at_ms : ℕ
  pub creation_fingerprint : Option String

-- serde_json's printer and parser of a `ProcessIdentity`.
pub record IdentityCodec : Type 0 where
  pub encode : ProcessIdentity → Result String
  pub decode : String → Result ProcessIdentity

abbrev pub with_identity : String → String → ℕ → String → ℕ → ComponentRow → ComponentRow
with_identity encoded nonce pid digest now row = record row {
  identity_json = some encoded;
  launch_nonce = some nonce;
  pid = some pid;
  executable_digest = some digest;
  updated_at_ms = now;
}

abbrev pub without_identity : ℕ → ComponentRow → ComponentRow
without_identity now row = record row {
  identity_json = none;
  launch_nonce = none;
  pid = none;
  executable_digest = none;
  updated_at_ms = now;
}

module _ (codec : IdentityCodec) where
  unfoldable pub persist_tx : Db → String → ProcessIdentity → ℕ → Result (Unit {0} × Db)
  persist_tx db component_id identity now_ms = do
    validate_name component_id 128
    encoded ← codec.encode identity
    ensure (leb (byte_len encoded) 4096) invalid_input
    now ← sqlite_timestamp now_ms
    ensure (count_where (λ row. str_eq row.id component_id) db.components == 1) not_found
    ok (
      tt,
      record db {
        components =
            update_where (λ row. str_eq row.id component_id)
              (with_identity encoded identity.launch_nonce identity.pid identity.executable_digest
                now)
              db.components;
      },
    )

  unfoldable pub persist_component_identity :
      Store → String → ProcessIdentity → ℕ → Result (Unit {0}) × Store
  unfolding persist_tx commit
  persist_component_identity s component_id identity now_ms =
      commit s (persist_tx s.db component_id identity now_ms)

  abbrev pub identity_text : Option ComponentRow → Option String
  identity_text none = none
  identity_text (some row) = row.identity_json

  abbrev decode_optional : Option String → Result (Option ProcessIdentity)
  decode_optional none = ok none
  decode_optional (some text) = do identity ← codec.decode text; ok (some identity)

  unfoldable pub component_identity : Store → String → Result (Option ProcessIdentity)
  component_identity s component_id = decode_optional (identity_text (row_of s.db component_id))

unfoldable pub clear_tx : Db → String → ℕ → Result (Unit {0} × Db)
clear_tx db component_id now_ms = do
  now ← sqlite_timestamp now_ms
  ok (
    tt,
    record db {
      components =
          update_where (λ row. str_eq row.id component_id) (without_identity now) db.components;
    },
  )

unfoldable pub clear_component_identity : Store → String → ℕ → Result (Unit {0}) × Store
unfolding clear_tx commit
clear_component_identity s component_id now_ms = commit s (clear_tx s.db component_id now_ms)
