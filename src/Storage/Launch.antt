-- ===== src/Storage/Launch.antt =====
-- crates/watchdog/src/storage_launch_intents.rs: the durable admission of a launch before its
-- process exists. JSON is the argument `Codec`, with the test for a null value beside it; a fresh
-- UUID is an argument of the call that draws it.
pub mod Kept
pub mod Cycle
pub mod Gates
pub mod Tests
use Prim.Native.String
use ascension_watchdog.Prelude.{
  ℕ, ◌+◌, Bool, true, false, ◌&&◌, ◌||◌, not, String, Option, none, some, List, [], ◌∷◌, ◌++◌,
  str_eq,
}
use ascension_watchdog.Prelude.Tests.{ltb, leb, ◌==◌, if◌then◌else◌}
use ascension_watchdog.Prelude.Lists.{count_where, find_where, update_where, all_where, length}
use ascension_watchdog.Prelude.Text.{byte_len, as_bytes, has_control, has_zero}
use ascension_watchdog.Config.{DesiredMode}
use ascension_watchdog.Error.{
  Result, ok, err, ensure, conflict, invalid_input, not_found, sqlite, ◌>>=◌, ◌>>◌,
}
use ascension_watchdog.Storage.Db.{
  LaunchIntentState, prepared, proof_recorded, active, cleaned, IntentRow, Db, Store, commit,
}
use ascension_watchdog.Storage.Metadata.{
  metadata_from_conn, validate_name, sqlite_timestamp, insert_audit_tx, desired_mode_from,
}
use ascension_watchdog.Storage.Jobs.{Codec}

abbrev pub max_launch_proof_bytes : ℕ
max_launch_proof_bytes = 8192

pub record LaunchIntent (Value : Type 0) : Type 0 where
  pub id : String
  pub deployment_id : String
  pub component_id : String
  pub launch_nonce : String
  pub expected_incarnation : Option String
  pub expected_launch_spec_digest : Option String
  pub planned_containment_id : Option String
  pub state : LaunchIntentState
  pub ownership_proof_json : Option Value
  pub created_at_ms : ℕ
  pub updated_at_ms : ℕ

abbrev pub is_prepared : LaunchIntentState → Bool
is_prepared prepared = true
is_prepared _ = false

abbrev pub is_proof_recorded : LaunchIntentState → Bool
is_proof_recorded proof_recorded = true
is_proof_recorded _ = false

abbrev pub is_cleaned : LaunchIntentState → Bool
is_cleaned cleaned = true
is_cleaned _ = false

abbrev pub is_some : {A : Type 0} → Option A → Bool
is_some none = false
is_some (some a) = true

abbrev same_presence : Bool → Bool → Bool
same_presence true b = b
same_presence false b = not b

-- `validate_digest` (config.rs): 64 lowercase hexadecimal characters.
unfoldable pub is_digest : String → Bool
is_digest value =
    byte_len value == 64
    && all_where (λ b. leb 48 b && leb b 57 || leb 97 b && leb b 102) (as_bytes value)

-- `validate_metadata_identifier`
unfoldable pub validate_metadata_identifier : String → Result (Unit {0})
validate_metadata_identifier value =
    ensure
      (not (byte_len value == 0 || ltb 128 (byte_len value) || has_zero value || has_control value))
      conflict

unfoldable pub require_running_launch_intent : Db → Result (Unit {0})
require_running_launch_intent db = do
  mode ← desired_mode_from db
  ensure (elim mode [ DesiredMode.running ↦ true | _ ↦ false ]) conflict

abbrev pub intent_row : Db → String → Option IntentRow
intent_row db id = find_where (λ row. str_eq row.id id) db.intents

abbrev pub is_unsettled_of : String → IntentRow → Bool
is_unsettled_of component_id row =
    str_eq row.component_id component_id && not (is_cleaned row.state)

-- The row of a new intent.
abbrev pub prepared_row :
    String → String → String → String → String → String → Option String → ℕ → IntentRow
prepared_row id deployment_id component_id launch_nonce incarnation digest containment now =
    record {
      id = id;
      deployment_id = deployment_id;
      component_id = component_id;
      launch_nonce = launch_nonce;
      expected_incarnation = some incarnation;
      expected_launch_spec_digest = some digest;
      planned_containment_id = containment;
      state = prepared;
      ownership_proof_json = none;
      created_at_ms = now;
      updated_at_ms = now;
    }

-- `INSERT INTO launch_intents`, refused on a used primary key and by the unique index on the
-- unsettled intents of a component.
unfoldable pub insert_intent_row : Db → IntentRow → Result Db
insert_intent_row db row =
    if count_where (λ other. str_eq other.id row.id || is_unsettled_of row.component_id other)
        db.intents
      == 0
    then ok (record db { intents = db.intents ++ row ∷ [] })
    else err sqlite

abbrev validate_containment : Option String → Result (Unit {0})
validate_containment none = ok tt
validate_containment (some id) = validate_name id 256

abbrev required_deployment : Option String → Result String
required_deployment none = err conflict
required_deployment (some id) = ok id

unfoldable pub prepare_tx :
    Db → String → String → String → String → String → Option String → ℕ → Result (Unit {0} × Db)
unfolding insert_intent_row
prepare_tx db id component_id launch_nonce incarnation digest containment now_ms = do
  validate_name component_id 128
  validate_name launch_nonce 128
  validate_name incarnation 256
  ensure (is_digest digest) invalid_input
  validate_containment containment
  deployment_id ← required_deployment (metadata_from_conn db "deployment_id")
  validate_metadata_identifier deployment_id
  now ← sqlite_timestamp now_ms
  require_running_launch_intent db
  ensure (count_where (is_unsettled_of component_id) db.intents == 0) conflict
  inserted ←
      insert_intent_row db
        (prepared_row id deployment_id component_id launch_nonce incarnation digest containment now)
  written ←
      insert_audit_tx inserted "launch_intent_prepared"
        (String.◌++◌ component_id (String.◌++◌ ":" id)) now_ms
  ok (tt, written)

-- `WHERE id=? AND state=?`
abbrev pub is_intent_in : String → (LaunchIntentState → Bool) → IntentRow → Bool
is_intent_in id test row = str_eq row.id id && test row.state

abbrev pub is_bound : IntentRow → Bool
is_bound row = is_some row.expected_incarnation && is_some row.expected_launch_spec_digest

abbrev pub with_proof : String → ℕ → IntentRow → IntentRow
with_proof encoded now row = record row {
  state = proof_recorded;
  ownership_proof_json = some encoded;
  updated_at_ms = now;
}

abbrev pub activated : ℕ → IntentRow → IntentRow
activated now row = record row { state = active; updated_at_ms = now }

abbrev pub cleaned_row : ℕ → IntentRow → IntentRow
cleaned_row now row = record row { state = cleaned; updated_at_ms = now }

-- An update of the intents that pass a test, and its audit.
unfoldable pub update_intent :
    Db → (IntentRow → Bool) → (ℕ → IntentRow → IntentRow) → String → String → ℕ → Result Db
update_intent db test change action intent_id now_ms = do
  now ← sqlite_timestamp now_ms
  insert_audit_tx (record db { intents = update_where test (change now) db.intents }) action
      intent_id now_ms

unfoldable pub record_proof_row : Db → Option IntentRow → String → String → ℕ → Result Db
unfolding update_intent
record_proof_row db none intent_id encoded now_ms = err not_found
record_proof_row db (some row) intent_id encoded now_ms = do
  ensure (is_bound row) conflict
  ensure (is_prepared row.state) conflict
  update_intent db (is_intent_in intent_id is_prepared) (with_proof encoded) "launch_proof_recorded"
      intent_id now_ms

unfoldable pub activate_row : Db → Option IntentRow → String → ℕ → Result Db
unfolding update_intent
activate_row db none intent_id now_ms = err not_found
activate_row db (some row) intent_id now_ms = do
  ensure (is_bound row) conflict
  ensure (is_proof_recorded row.state && is_some row.ownership_proof_json) conflict
  update_intent db (is_intent_in intent_id is_proof_recorded) activated "launch_intent_activated"
      intent_id now_ms

unfoldable pub activate_tx : Db → String → ℕ → Result (Unit {0} × Db)
unfolding activate_row
activate_tx db intent_id now_ms = do
  validate_name intent_id 128
  require_running_launch_intent db
  written ← activate_row db (intent_row db intent_id) intent_id now_ms
  ok (tt, written)

-- The row was read in the same transaction, so `state=?` holds of it: an unsettled row is cleaned.
unfoldable pub clean_row : Db → Option IntentRow → String → ℕ → Result Db
unfolding update_intent
clean_row db none intent_id now_ms = err not_found
clean_row db (some row) intent_id now_ms =
    if is_cleaned row.state
    then ok db
    else update_intent db (is_intent_in intent_id (λ state. not (is_cleaned state))) cleaned_row
        "launch_intent_cleaned" intent_id now_ms

unfoldable pub clean_tx : Db → String → ℕ → Result (Unit {0} × Db)
unfolding clean_row
clean_tx db intent_id now_ms = do
  validate_name intent_id 128
  written ← clean_row db (intent_row db intent_id) intent_id now_ms
  ok (tt, written)

-- `validate_name_sqlite`
abbrev pub is_sqlite_name : ℕ → String → Bool
is_sqlite_name bound value =
    not (byte_len value == 0 || ltb bound (byte_len value) || has_control value)

-- What a row's state says of its proof.
abbrev pub fits_state : LaunchIntentState → Bool → Bool
fits_state prepared has_proof = not has_proof
fits_state proof_recorded has_proof = has_proof
fits_state active has_proof = has_proof
fits_state cleaned has_proof = true

module _ {Value : Type 0} (codec : Codec Value) (is_null : Value → Bool) where
  unfoldable pub record_proof_tx : Db → String → Value → ℕ → Result (Unit {0} × Db)
  unfolding record_proof_row
  record_proof_tx db intent_id proof now_ms = do
    validate_name intent_id 128
    ensure (not (is_null proof)) invalid_input
    encoded ← codec.to_text proof
    ensure (leb (byte_len encoded) max_launch_proof_bytes) invalid_input
    written ← record_proof_row db (intent_row db intent_id) intent_id encoded now_ms
    ok (tt, written)

  abbrev parse_proof : Option String → Result (Option Value)
  parse_proof none = ok none
  parse_proof (some text) =
      if ltb max_launch_proof_bytes (byte_len text)
      then err sqlite
      else elim (codec.from_text text) [ ok value ↦ ok (some value) | err _ ↦ err sqlite ]

  abbrev valid_optional : (String → Bool) → Option String → Bool
  valid_optional valid none = true
  valid_optional valid (some text) = valid text

  unfoldable pub launch_intent_from_row : IntentRow → Result (LaunchIntent Value)
  launch_intent_from_row row = do
    ensure
        (same_presence (is_some row.expected_incarnation) (is_some row.expected_launch_spec_digest))
        sqlite
    ensure (valid_optional (is_sqlite_name 256) row.expected_incarnation) sqlite
    ensure (valid_optional is_digest row.expected_launch_spec_digest) sqlite
    proof ← parse_proof row.ownership_proof_json
    ensure (fits_state row.state (is_some proof)) sqlite
    ok (record {
      id = row.id;
      deployment_id = row.deployment_id;
      component_id = row.component_id;
      launch_nonce = row.launch_nonce;
      expected_incarnation = row.expected_incarnation;
      expected_launch_spec_digest = row.expected_launch_spec_digest;
      planned_containment_id = row.planned_containment_id;
      state = row.state;
      ownership_proof_json = proof;
      created_at_ms = row.created_at_ms;
      updated_at_ms = row.updated_at_ms;
    })

  abbrev decoded : Option IntentRow → Result (Option (LaunchIntent Value))
  decoded none = ok none
  decoded (some row) = do intent ← launch_intent_from_row row; ok (some intent)

  unfoldable pub launch_intent : Store → String → Result (Option (LaunchIntent Value))
  unfolding launch_intent_from_row
  launch_intent s intent_id = do validate_name intent_id 128; decoded (intent_row s.db intent_id)

  abbrev pub or_disappeared : Option (LaunchIntent Value) → Result (LaunchIntent Value)
  or_disappeared none = err conflict
  or_disappeared (some intent) = ok intent

  abbrev pub then_intent : String → Result (Unit {0}) × Store → Result (LaunchIntent Value) × Store
  then_intent id (ok _, s) = (do found ← launch_intent s id; or_disappeared found, s)
  then_intent id (err e, s) = (err e, s)

  -- The calls, each a transaction and a read of the intent after it.
  unfoldable pub prepare_launch_intent :
      Store
      → String
      → String
      → String
      → String
      → String
      → Option String
      → ℕ
      → Result (LaunchIntent Value) × Store
  unfolding prepare_tx commit launch_intent
  prepare_launch_intent s id component_id launch_nonce incarnation digest containment now_ms =
      then_intent id (
        commit s
          (prepare_tx s.db id component_id launch_nonce incarnation digest containment now_ms))

  unfoldable pub record_launch_proof :
      Store → String → Value → ℕ → Result (LaunchIntent Value) × Store
  unfolding record_proof_tx commit launch_intent
  record_launch_proof s intent_id proof now_ms =
      then_intent intent_id (commit s (record_proof_tx s.db intent_id proof now_ms))

  unfoldable pub activate_launch_intent : Store → String → ℕ → Result (LaunchIntent Value) × Store
  unfolding activate_tx commit launch_intent
  activate_launch_intent s intent_id now_ms =
      then_intent intent_id (commit s (activate_tx s.db intent_id now_ms))

  unfoldable pub clean_launch_intent : Store → String → ℕ → Result (LaunchIntent Value) × Store
  unfolding clean_tx commit launch_intent
  clean_launch_intent s intent_id now_ms =
      then_intent intent_id (commit s (clean_tx s.db intent_id now_ms))
