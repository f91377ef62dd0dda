-- ===== src/Storage/Launch/Kept.antt =====
-- What every launch transaction does to the table of intents: nothing, one insertion, or a move of
-- some rows along their life cycle.
use ascension_watchdog.Prelude.{
  ℕ, ◌<◌, ◌≡◌, refl, String, Bool, true, false, ◌&&◌, ◌||◌, not, Option, none, some, [], ◌∷◌, ◌++◌,
  arith, inl, inr, ap, sym, ◌∙◌, str_eq,
}
use ascension_watchdog.Prelude.Tests.{leb, ◌==◌}
use ascension_watchdog.Prelude.Lists.{count_where, count_where-or_zero, update_where}
use ascension_watchdog.Prelude.Text.{byte_len}
use ascension_watchdog.Config.{DesiredMode}
use ascension_watchdog.Error.{
  Result, ok, err, conflict, invalid_input, ensure, ◌>>=◌, >>=-eq-ok, >>-ensure, if-cases,
}
use ascension_watchdog.Storage.Db.{
  LaunchIntentState, prepared, proof_recorded, active, cleaned, IntentRow, Db,
}
use ascension_watchdog.Storage.Metadata.{
  validate_name, sqlite_timestamp, metadata_from_conn, insert_audit_tx, desired_mode_from,
}
use ascension_watchdog.Storage.Metadata.Ledger.{insert_audit_tx-only}
use ascension_watchdog.Storage.Jobs.{Codec}
use ascension_watchdog.Storage.Jobs.Outcomes.{state-eq}
use ascension_watchdog.Storage.Launch.{
  is_prepared, is_proof_recorded, is_cleaned, is_some, is_bound, fits_state, is_unsettled_of,
  is_intent_in, with_proof, activated, cleaned_row, prepared_row, insert_intent_row, intent_row,
  update_intent, is_digest, validate_containment, required_deployment, validate_metadata_identifier,
  require_running_launch_intent, prepare_tx, record_proof_row, record_proof_tx, activate_row,
  activate_tx, clean_row, clean_tx, max_launch_proof_bytes,
}

-- How far an intent is in its life.
abbrev pub rank : LaunchIntentState → ℕ
rank prepared = 0
rank proof_recorded = 1
rank active = 2
rank cleaned = 3

-- The binding that a launch was admitted with.
pub record SameBinding (a b : IntentRow) : Type 0 where
  pub id : b.id ≡ a.id
  pub component : b.component_id ≡ a.component_id
  pub nonce : b.launch_nonce ≡ a.launch_nonce
  pub incarnation : b.expected_incarnation ≡ a.expected_incarnation
  pub digest : b.expected_launch_spec_digest ≡ a.expected_launch_spec_digest

abbrev pub HasProof : IntentRow → Type 0
HasProof r = fits_state r.state (is_some r.ownership_proof_json) ≡ true

-- A row moves forward with its binding, and keeps its proof where its state wants one.
pub record IsMove (a b : IntentRow) : Type 0 where
  pub binding : SameBinding a b
  pub forward : rank a.state < rank b.state
  pub proof : HasProof a → HasProof b

pub record Inserts (db db' : Db) : Type 0 where
  pub row : IntentRow
  pub new_id : count_where (λ other. str_eq other.id row.id) db.intents ≡ 0
  pub none_open : count_where (is_unsettled_of row.component_id) db.intents ≡ 0
  pub state : row.state ≡ prepared
  pub proof : row.ownership_proof_json ≡ none
  pub intents : db'.intents ≡ db.intents ++ row ∷ []

pub record Moves (db db' : Db) : Type 0 where
  pub test : IntentRow → Bool
  pub change : IntentRow → IntentRow
  pub moves : (r : IntentRow) → test r ≡ true → IsMove r (change r)
  pub intents : db'.intents ≡ update_where test change db.intents

pub data Change (db db' : Db) : Type 0 where
  same : db'.intents ≡ db.intents → Change db db'
  inserts : Inserts db db' → Change db db'
  moves : Moves db db' → Change db db'

pub same_binding : (r : IntentRow) → SameBinding r r
same_binding r = record {
  id = refl;
  component = refl;
  nonce = refl;
  incarnation = refl;
  digest = refl;
}

update_intent-moves :
    (db : Db) (test : IntentRow → Bool) (change : ℕ → IntentRow → IntentRow)
    (action intent_id : String) (now_ms : ℕ) {db' : Db}
    → ((now : ℕ) (r : IntentRow) → test r ≡ true → IsMove r (change now r))
    → update_intent db test change action intent_id now_ms ≡ ok db'
    → Change db db'
unfolding update_intent
update_intent-moves db test change action intent_id now_ms each h =
    let (now, _, written) = >>=-eq-ok (sqlite_timestamp now_ms) _ h in
    moves (record {
      test = test;
      change = change now;
      moves = each now;
      intents = ap (λ (d : Db). d.intents) (insert_audit_tx-only _ action intent_id now_ms written);
    })

proves :
    (intent_id encoded : String) (now : ℕ) (r : IntentRow)
    → is_intent_in intent_id is_prepared r ≡ true
    → IsMove r (with_proof encoded now r)
proves intent_id encoded now r h = record {
  binding = record { id = refl; component = refl; nonce = refl; incarnation = refl; digest = refl };
  forward = ground arith;
  proof = λ p. refl;
}

activates :
    (intent_id : String) (now : ℕ) (r : IntentRow)
    → is_intent_in intent_id is_proof_recorded r ≡ true
    → IsMove r (activated now r)
activates intent_id now r h = record {
  binding = record { id = refl; component = refl; nonce = refl; incarnation = refl; digest = refl };
  forward = ground arith;
  proof = λ p. ground arith;
}

cleans :
    (intent_id : String) (now : ℕ) (r : IntentRow)
    → is_intent_in intent_id (λ state. not (is_cleaned state)) r ≡ true
    → IsMove r (cleaned_row now r)
cleans intent_id now r h = record {
  binding = record { id = refl; component = refl; nonce = refl; incarnation = refl; digest = refl };
  forward = ground arith;
  proof = λ p. refl;
}

insert_intent_row-Inserts :
    (db db1 db' : Db) (row : IntentRow)
    → insert_intent_row db row ≡ ok db1
    → db'.intents ≡ db1.intents
    → row.state ≡ prepared
    → row.ownership_proof_json ≡ none
    → Inserts db db'
unfolding insert_intent_row
insert_intent_row-Inserts db db1 db' row h e state proof =
    let free : count_where
          (λ other. str_eq other.id row.id || is_unsettled_of row.component_id other) db.intents
        ≡ 0 =
      ground arith in
    let added : db1.intents ≡ db.intents ++ row ∷ [] = ground arith in
    let (new_id, none_open) =
      count_where-or_zero (λ (other : IntentRow). str_eq other.id row.id)
        (is_unsettled_of row.component_id) db.intents free in
    record {
      row = row;
      new_id = new_id;
      none_open = none_open;
      state = state;
      proof = proof;
      intents = e ∙ added;
    }

zero_of : {n : ℕ} → (n == 0) ≡ true → n ≡ 0
zero_of {n} h = ground arith

mode_is_running :
    (mode : DesiredMode)
    → ensure (elim mode [ DesiredMode.running ↦ true | _ ↦ false ]) conflict ≡ ok tt
    → mode ≡ DesiredMode.running
mode_is_running mode h = ground arith

pub require_running :
    (db : Db)
    → require_running_launch_intent db ≡ ok tt
    → desired_mode_from db ≡ ok DesiredMode.running
unfolding require_running_launch_intent
require_running db h =
    let (mode, is, h1) = >>=-eq-ok (desired_mode_from db) _ h in
    is ∙ ap (λ (m : DesiredMode). ok m) (mode_is_running mode h1)

pub prepare_tx-Inserts :
    (db : Db) (id component nonce incarnation digest : String) (containment : Option String)
    (now_ms : ℕ) {db' : Db}
    → prepare_tx db id component nonce incarnation digest containment now_ms ≡ ok (tt, db')
    → (desired_mode_from db ≡ ok DesiredMode.running)
      × (count_where (is_unsettled_of component) db.intents ≡ 0)
      × Inserts db db'
unfolding prepare_tx
prepare_tx-Inserts db id component nonce incarnation digest containment now_ms {db' = db'} h =
    let (_, _, h1) = >>=-eq-ok (validate_name component 128) _ h in
    let (_, _, h2) = >>=-eq-ok (validate_name nonce 128) _ h1 in
    let (_, _, h3) = >>=-eq-ok (validate_name incarnation 256) _ h2 in
    let (_, h4) = >>-ensure (is_digest digest) invalid_input _ h3 in
    let (_, _, h5) = >>=-eq-ok (validate_containment containment) _ h4 in
    let (deployment, _, h6) =
      >>=-eq-ok (required_deployment (metadata_from_conn db "deployment_id")) _ h5 in
    let (_, _, h7) = >>=-eq-ok (validate_metadata_identifier deployment) _ h6 in
    let (now, _, h8) = >>=-eq-ok (sqlite_timestamp now_ms) _ h7 in
    let (_, running, h9) = >>=-eq-ok (require_running_launch_intent db) _ h8 in
    let (free, h10) =
      >>-ensure (count_where (is_unsettled_of component) db.intents == 0) conflict _ h9 in
    let row = prepared_row id deployment component nonce incarnation digest containment now in
    let (inserted, insert, h11) = >>=-eq-ok (insert_intent_row db row) _ h10 in
    let (written, audited, e) = >>=-eq-ok (insert_audit_tx inserted _ _ now_ms) _ h11 in
    (
      require_running db running,
      zero_of free,
      insert_intent_row-Inserts db inserted db' row insert
          (ap (λ (d : Db). d.intents)
            (state-eq _ _ written db' e ∙ insert_audit_tx-only inserted _ _ now_ms audited))
          refl refl,
    )

pub update_of :
    (db : Db) (m : Result Db) {db' : Db}
    → ◌≡◌ {A = Result (Unit {0} × Db)} (do written ← m; ok (tt, written)) (ok (tt, db'))
    → m ≡ ok db'
update_of db (ok written) h = ap (λ (d : Db). ok d) (sym (state-eq _ _ written _ h))
update_of db (err e) h = cc h

record_proof_row-moves :
    (db : Db) (o : Option IntentRow) (intent_id encoded : String) (now_ms : ℕ) {db' : Db}
    → record_proof_row db o intent_id encoded now_ms ≡ ok db'
    → Change db db'
unfolding record_proof_row
record_proof_row-moves db none intent_id encoded now_ms h = cc h
record_proof_row-moves db (some row) intent_id encoded now_ms h =
    let (_, h1) = >>-ensure (is_bound row) conflict _ h in
    let (_, h2) = >>-ensure (is_prepared row.state) conflict _ h1 in
    update_intent-moves db (is_intent_in intent_id is_prepared) (with_proof encoded) _ intent_id
      now_ms (proves intent_id encoded) h2

activate_row-moves :
    (db : Db) (o : Option IntentRow) (intent_id : String) (now_ms : ℕ) {db' : Db}
    → activate_row db o intent_id now_ms ≡ ok db'
    → Change db db'
unfolding activate_row
activate_row-moves db none intent_id now_ms h = cc h
activate_row-moves db (some row) intent_id now_ms h =
    let (_, h1) = >>-ensure (is_bound row) conflict _ h in
    let (_, h2) =
      >>-ensure (is_proof_recorded row.state && is_some row.ownership_proof_json) conflict _ h1 in
    update_intent-moves db (is_intent_in intent_id is_proof_recorded) activated _ intent_id now_ms
      (activates intent_id) h2

clean_row-moves :
    (db : Db) (o : Option IntentRow) (intent_id : String) (now_ms : ℕ) {db' : Db}
    → clean_row db o intent_id now_ms ≡ ok db'
    → Change db db'
unfolding clean_row
clean_row-moves db none intent_id now_ms h = cc h
clean_row-moves db (some row) intent_id now_ms {db' = db'} h =
    elim (if-cases (is_cleaned row.state) _ _ h) [
      | inl (_, e) ↦ let is : db ≡ db' = cc e in same (sym (ap (λ (d : Db). d.intents) is))
      | inr (_, h1) ↦
          update_intent-moves db (is_intent_in intent_id (λ state. not (is_cleaned state)))
            cleaned_row _ intent_id now_ms (cleans intent_id) h1
    ]

module _ (db : Db) (intent_id : String) (now_ms : ℕ) {db' : Db} where
  pub activate_tx-moves : activate_tx db intent_id now_ms ≡ ok (tt, db') → Change db db'
  unfolding activate_tx
  activate_tx-moves h =
      let (_, _, h1) = >>=-eq-ok (validate_name intent_id 128) _ h in
      let (_, _, h2) = >>=-eq-ok (require_running_launch_intent db) _ h1 in
      activate_row-moves db (intent_row db intent_id) intent_id now_ms (update_of db _ h2)

  pub clean_tx-moves : clean_tx db intent_id now_ms ≡ ok (tt, db') → Change db db'
  unfolding clean_tx
  clean_tx-moves h =
      let (_, _, h1) = >>=-eq-ok (validate_name intent_id 128) _ h in
      clean_row-moves db (intent_row db intent_id) intent_id now_ms (update_of db _ h1)

  pub record_proof_tx-moves :
      {Value : Type 0} (codec : Codec Value) (is_null : Value → Bool) (proof : Value)
      → record_proof_tx codec is_null db intent_id proof now_ms ≡ ok (tt, db')
      → Change db db'
  unfolding record_proof_tx
  record_proof_tx-moves codec is_null proof h =
      let (_, _, h1) = >>=-eq-ok (validate_name intent_id 128) _ h in
      let (_, h2) = >>-ensure (not (is_null proof)) invalid_input _ h1 in
      let (encoded, _, h3) = >>=-eq-ok (codec.to_text proof) _ h2 in
      let (_, h4) = >>-ensure (leb (byte_len encoded) max_launch_proof_bytes) invalid_input _ h3 in
      record_proof_row-moves db (intent_row db intent_id) intent_id encoded now_ms
        (update_of db _ h4)
