-- ===== src/Storage/Launch/Gates.antt =====
-- When a launch is admitted and when an intent becomes active.
use mathlib.Core.Path.{subst}
use ascension_watchdog.Prelude.{
  ℕ, ◌≤◌, ◌≡◌, ◌≢◌, ◌⊎◌, refl, String, Bool, true, ◌&&◌, Option, none, some, arith, inl, inr, ap,
  str_eq,
}
use ascension_watchdog.Prelude.Lists.{count_where, update_where}
use ascension_watchdog.Prelude.Updates.{find_where-update, find_where-holds}
use ascension_watchdog.Config.{DesiredMode}
use ascension_watchdog.Error.{Result, WatchdogError, ok, err, conflict, >>=-eq-ok, >>-ensure}
use ascension_watchdog.Storage.Db.{
  LaunchIntentState, proof_recorded, active, IntentRow, Db, Store, commit,
}
use ascension_watchdog.Storage.Metadata.{validate_name, sqlite_timestamp, desired_mode_from}
use ascension_watchdog.Storage.Metadata.Ledger.{insert_audit_tx-only}
use ascension_watchdog.Storage.Jobs.{Codec}
use ascension_watchdog.Storage.Launch.{
  LaunchIntent, is_bound, is_some, is_proof_recorded, is_unsettled_of, is_intent_in, activated,
  intent_row, update_intent, require_running_launch_intent, activate_row, activate_tx, then_intent,
  prepare_launch_intent, activate_launch_intent,
}
use ascension_watchdog.Storage.Launch.Kept.{prepare_tx-Inserts, require_running, update_of}

module _ {Value : Type 0} (codec : Codec Value) (is_null : Value → Bool) where
  refused_of :
      (s : Store) (id : String) (r : Result (Unit {0} × Db))
      → ((db : Db) → r ≢ ok (tt, db))
      → (e : WatchdogError) × (then_intent codec is_null id (commit s r) ≡ (err e, s))
  unfolding commit
  refused_of s id (err e) never = (e, refl)
  refused_of s id (ok (tt, db)) never = absurd (never db refl)

  -- A component with an unsettled intent, or a deployment that is not to run, admits no launch: the
  -- call is an error and changes nothing.
  pub prepare-refused :
      (s : Store) (id component nonce incarnation digest : String) (containment : Option String)
      (now_ms : ℕ)
      → (1 ≤ count_where (is_unsettled_of component) s.db.intents)
        ⊎ (desired_mode_from s.db ≢ ok DesiredMode.running)
      → (e : WatchdogError) × (prepare_launch_intent codec is_null s id component nonce incarnation
            digest containment now_ms
          ≡ (err e, s))
  unfolding prepare_launch_intent
  prepare-refused s id component nonce incarnation digest containment now_ms why =
      refused_of s id _ (λ db h.
        let (running, free, _) =
          prepare_tx-Inserts s.db id component nonce incarnation digest containment now_ms h in
        elim why [ inl taken ↦ omega (arith, taken, free) | inr stopped ↦ stopped running ])

activate_update :
    (db db' : Db) (id : String) (now : ℕ) (row : IntentRow)
    → db'.intents ≡ update_where (is_intent_in id is_proof_recorded) (activated now) db.intents
    → intent_row db id ≡ some row
    → is_proof_recorded row.state ≡ true
    → intent_row db' id ≡ some (activated now row)
activate_update db db' id now row written found state =
    let is_it = find_where-holds (λ row. str_eq row.id id) db.intents found in
    rw written (
      find_where-update (λ row. str_eq row.id id) (is_intent_in id is_proof_recorded)
        (activated now) (λ row. refl) db.intents found (rw (is_it, state) refl))

-- What an activation found and left.
pub record Activates (db db' : Db) (id : String) (time : ℕ) : Type 0 where
  pub row : IntentRow
  pub proof : String
  pub running : desired_mode_from db ≡ ok DesiredMode.running
  pub found : intent_row db id ≡ some row
  pub state : row.state ≡ proof_recorded
  pub bound : is_bound row ≡ true
  pub proven : row.ownership_proof_json ≡ some proof
  pub left : intent_row db' id ≡ some (record row { state = active; updated_at_ms = time })

has_proof : (o : Option String) → is_some o ≡ true → (text : String) × (o ≡ some text)
has_proof none h = cc h
has_proof (some text) h = (text, refl)

is_recorded : (state : LaunchIntentState) → is_proof_recorded state ≡ true → state ≡ proof_recorded
is_recorded state h = ground arith

both : (x y : Bool) → (x && y) ≡ true → (x ≡ true) × (y ≡ true)
both x y h = ground arith

clock_time : (now_ms : ℕ) {t : ℕ} → sqlite_timestamp now_ms ≡ ok t → t ≡ now_ms
unfolding sqlite_timestamp
clock_time now_ms h = ground arith

activate_row-Activates :
    (db : Db) (o : Option IntentRow) (id : String) (now_ms : ℕ) {db' : Db}
    → desired_mode_from db ≡ ok DesiredMode.running
    → intent_row db id ≡ o
    → activate_row db o id now_ms ≡ ok db'
    → Activates db db' id now_ms
unfolding activate_row update_intent
activate_row-Activates db none id now_ms running found h = cc h
activate_row-Activates db (some row) id now_ms {db' = db'} running found h =
    let (bound, h1) = >>-ensure (is_bound row) conflict _ h in
    let (ready, h2) =
      >>-ensure (is_proof_recorded row.state && is_some row.ownership_proof_json) conflict _ h1 in
    let (state, some_proof) = both _ _ ready in
    let (proof, proven) = has_proof row.ownership_proof_json some_proof in
    let (now, clock, written) = >>=-eq-ok (sqlite_timestamp now_ms) _ h2 in
    let only =
      ap (λ (d : Db). d.intents)
        (insert_audit_tx-only _ "launch_intent_activated" id now_ms written) in
    record {
      row = row;
      proof = proof;
      running = running;
      found = found;
      state = is_recorded row.state state;
      bound = bound;
      proven = proven;
      left =
          subst
            (λ (t : ℕ). intent_row db' id ≡ some (record row { state = active; updated_at_ms = t }))
            (clock_time now_ms clock) (activate_update db db' id now row only found state);
    }

module _ {Value : Type 0} (codec : Codec Value) (is_null : Value → Bool) where
  activate-cases :
      (s : Store) (id : String) (now_ms : ℕ) (r : Result (Unit {0} × Db))
      {intent : LaunchIntent Value} {s' : Store}
      → activate_tx s.db id now_ms ≡ r
      → then_intent codec is_null id (commit s r) ≡ (ok intent, s')
      → Activates s.db s'.db id now_ms
  unfolding commit activate_tx
  activate-cases s id now_ms (err e) done h = cc h
  activate-cases s id now_ms (ok (tt, db)) {s' = s'} done h =
      let (_, _, h1) = >>=-eq-ok (validate_name id 128) _ done in
      let (_, running, h2) = >>=-eq-ok (require_running_launch_intent s.db) _ h1 in
      let s1 : Store = record s { db = db } in
      let is : s1 ≡ s' = ap (λ p. p.1) h in
      subst (λ (t : Store). Activates s.db t.db id now_ms) is
        (activate_row-Activates s.db (intent_row s.db id) id now_ms (require_running s.db running)
          refl (update_of s.db _ h2))

  -- A successful activation found the deployment running and the intent bound, in the state
  -- `proof_recorded` and with an ownership proof, and left its row active, updated at
  -- the time of the call, and every other column as it was.
  pub activate-gate :
      (s : Store) (id : String) (now_ms : ℕ) {intent : LaunchIntent Value} {s' : Store}
      → activate_launch_intent codec is_null s id now_ms ≡ (ok intent, s')
      → Activates s.db s'.db id now_ms
  unfolding activate_launch_intent
  activate-gate s id now_ms h = activate-cases s id now_ms (activate_tx s.db id now_ms) refl h
