-- ===== src/Storage/Worker/Controls.antt =====
-- What a successful configuration of the binding, and of the control, wrote.
use mathlib.Core.Path.{subst}
use ascension_watchdog.Prelude.{
  ℕ, ◌<◌, ◌≡◌, ◌⊎◌, refl, not, Option, none, some, arith, inl, inr, ap, sym, ◌∙◌, [], ◌∷◌,
}
use ascension_watchdog.Prelude.Tests.{ltb, ◌==◌}
use ascension_watchdog.Error.{
  Result, ok, conflict, >>=-eq-ok, if-err, if-cases, as_sqlite-ok, ok-eq, some-eq,
}
use ascension_watchdog.Storage.Db.{Db}
use ascension_watchdog.Storage.Metadata.{sqlite_timestamp, insert_audit_tx}
use ascension_watchdog.Storage.Metadata.Ledger.{insert_audit_tx-only}
use ascension_watchdog.Storage.Jobs.Outcomes.{state-eq}
use ascension_watchdog.Storage.Worker.Types.{WorkerBinding, WorkerControlWitness, ControlRow}
use ascension_watchdog.Storage.Worker.Outside.{Outside}
use ascension_watchdog.Storage.Worker.Validate.{
  each, required, validate_binding, validate_control, validate_control_against_binding,
}
use ascension_watchdog.Storage.Worker.Control.{
  same_binding, same_control, binding_from_row, binding_from_tx, control_from_row, control_from_tx,
  optional, ensure_phase_time_at_least, configure_found, configure_tx, previous_time,
  set_control_found, set_control_tx, write_control, bounded_required_text,
}

-- The first binding stays.
pub record Configures (db : Db) (binding : WorkerBinding) (db' : Db) : Type 0 where
  pub was : db.worker_binding ≡ none
  pub now : ℕ
  pub rest : db' ≡ record db {
    worker_binding = some (record { binding = binding; updated_at_ms = now });
    audit = db'.audit;
  }

configure_found-cases :
    (db : Db) (existing : Option WorkerBinding) (binding : WorkerBinding) (now_ms : ℕ)
    {answer : WorkerBinding} {db' : Db}
    → (existing ≡ none → db.worker_binding ≡ none)
    → configure_found db existing binding now_ms ≡ ok (answer, db')
    → (db' ≡ db) ⊎ Configures db binding db'
unfolding configure_found
configure_found-cases db (some existing) binding now_ms {answer = answer} {db' = db'} was h =
    let (_, e) = if-err (not (same_binding existing binding)) conflict _ h in
    inl (state-eq binding answer db db' e)
configure_found-cases db none binding now_ms {answer = answer} {db' = db'} was h =
    let (now, _, h1) = >>=-eq-ok (sqlite_timestamp now_ms) _ h in
    let (written, a, e) = >>=-eq-ok (insert_audit_tx _ _ _ now_ms) _ h1 in
    inr (record {
      was = was refl;
      now = now;
      rest =
          subst
            (λ (d : Db). d ≡ record db {
              worker_binding = some (record { binding = binding; updated_at_ms = now });
              audit = d.audit;
            })
            (sym (state-eq binding answer written db' e)) (insert_audit_tx-only _ _ _ now_ms a);
    })

optional-none :
    {A B : Type 0} (read : A → Result B) (o : Option A) → optional read o ≡ ok none → o ≡ none
optional-none read none h = refl
optional-none read (some a) h = let (b, _, e) = >>=-eq-ok (read a) _ h in cc

pub configure_tx-cases :
    (db : Db) (binding : WorkerBinding) (now_ms : ℕ) {answer : WorkerBinding} {db' : Db}
    → configure_tx db binding now_ms ≡ ok (answer, db')
    → (db' ≡ db) ⊎ Configures db binding db'
unfolding configure_tx
configure_tx-cases db binding now_ms h =
    let (_, _, h1) = >>=-eq-ok (validate_binding db binding) _ h in
    let (existing, read, h2) = >>=-eq-ok (optional binding_from_row db.worker_binding) _ h1 in
    configure_found-cases db existing binding now_ms
      (λ e. optional-none binding_from_row db.worker_binding (read ∙ ap (λ o. ok o) e)) h2

-- A control that is replaced had a smaller sequence.
pub record Controls (db : Db) (control : WorkerControlWitness) (db' : Db) : Type 0 where
  pub row : ControlRow
  pub is : row.control ≡ control
  pub newer :
      (old : ControlRow)
      → db.worker_control ≡ some old
      → old.control.mode_sequence < control.mode_sequence
  pub rest : db' ≡ record db { worker_control = some row; audit = db'.audit }

sequence_kept : (n : ℕ) {m : ℕ} → sqlite_timestamp n ≡ ok m → m ≡ n
unfolding sqlite_timestamp
sequence_kept n h = ground arith

module _ (db : Db) (control : WorkerControlWitness) (now_ms : ℕ) {answer : WorkerControlWitness}
    {db' : Db} where
  write_control-Controls :
      ((old : ControlRow)
        → db.worker_control ≡ some old
        → old.control.mode_sequence < control.mode_sequence)
      → write_control db control now_ms ≡ ok (answer, db')
      → Controls db control db'
  unfolding write_control
  write_control-Controls newer h =
      let (sequence, q, h1) = >>=-eq-ok (sqlite_timestamp control.mode_sequence) _ h in
      let (now, _, h2) = >>=-eq-ok (sqlite_timestamp now_ms) _ h1 in
      let (written, a, e) = >>=-eq-ok (insert_audit_tx _ _ _ now_ms) _ h2 in
      let row : ControlRow = record {
        control = record control { mode_sequence = sequence };
        updated_at_ms = now;
      } in
      record {
        row = row;
        is =
            ap (λ (n : ℕ). record control { mode_sequence = n })
              (sequence_kept control.mode_sequence q);
        newer = newer;
        rest =
            subst (λ (d : Db). d ≡ record db { worker_control = some row; audit = d.audit })
              (sym (state-eq control answer written db' e)) (insert_audit_tx-only _ _ _ now_ms a);
      }

  set_control_found-cases :
      (existing : Option WorkerControlWitness)
      → ((old : ControlRow) → db.worker_control ≡ some old → existing ≡ some old.control)
      → set_control_found db existing control now_ms ≡ ok (answer, db')
      → (db' ≡ db) ⊎ Controls db control db'
  unfolding set_control_found
  set_control_found-cases none read h = inr (write_control-Controls (λ old e. cc (read old e)) h)
  set_control_found-cases (some existing) read h =
      let (_, _, h1) =
        >>=-eq-ok (ensure_phase_time_at_least now_ms (previous_time db.worker_control)) _ h in
      let (not_older, h2) =
        if-err (ltb control.mode_sequence existing.mode_sequence) conflict _ h1 in
      elim (if-cases (control.mode_sequence == existing.mode_sequence) _ _ h2) [
        | inl (_, h3) ↦
            let (_, e) = if-err (not (same_control control existing)) conflict _ h3 in
            inl (state-eq control answer db db' e)
        | inr (other, h3) ↦ inr (
            write_control-Controls
              (λ old e.
                let is : existing ≡ old.control = cc (read old e) in
                subst (λ (c : WorkerControlWitness). c.mode_sequence < control.mode_sequence) is
                  (ground arith))
              h3)
      ]

module _ {Value Uuid : Type 0} (out : Outside Value Uuid) where
  pub control_from_row-same :
      (row : ControlRow) {control : WorkerControlWitness}
      → control_from_row out row ≡ ok control
      → control ≡ row.control
  unfolding control_from_row
  control_from_row-same row h =
      let (_, _, e) =
        >>=-eq-ok
          (each (
            bounded_required_text 128 row.control.deployment_id
            ∷ bounded_required_text 128 row.control.worker_owner_id
            ∷ bounded_required_text 64 row.control.worker_profile_digest
            ∷ bounded_required_text 36 row.control.watchdog_boot_id
            ∷ bounded_required_text 36 row.control.worker_boot_id
            ∷ validate_control out row.control
            ∷ []))
          _ (as_sqlite-ok _ h) in
      ok-eq e

  control_read :
      (db : Db) {existing : Option WorkerControlWitness}
      → control_from_tx out db ≡ ok existing
      → (old : ControlRow) → db.worker_control ≡ some old
      → existing ≡ some old.control
  unfolding control_from_tx
  control_read db {existing = existing} h old is =
      let (value, read, e) =
        >>=-eq-ok (control_from_row out old) _ (
          subst (λ (o : Option ControlRow). optional (control_from_row out) o ≡ ok existing) is
            h) in
      ok-eq e ∙ ap (λ c. some c) (control_from_row-same old read)

  pub set_control_tx-cases :
      (db : Db) (control : WorkerControlWitness) (now_ms : ℕ) {answer : WorkerControlWitness}
      {db' : Db}
      → set_control_tx out db control now_ms ≡ ok (answer, db')
      → (db' ≡ db) ⊎ Controls db control db'
  unfolding set_control_tx
  set_control_tx-cases db control now_ms h =
      let (_, _, h1) = >>=-eq-ok (validate_control out control) _ h in
      let (found, _, h2) = >>=-eq-ok (binding_from_tx db) _ h1 in
      let (binding, _, h3) = >>=-eq-ok (required found) _ h2 in
      let (_, _, h4) = >>=-eq-ok (validate_control_against_binding control binding) _ h3 in
      let (existing, read, h5) = >>=-eq-ok (control_from_tx out db) _ h4 in
      set_control_found-cases db control now_ms existing (control_read db read) h5

  -- A control that is read is that of its row.
  pub control_from_tx-row :
      (db : Db) {control : WorkerControlWitness}
      → control_from_tx out db ≡ ok (some control)
      → (row : ControlRow) × (db.worker_control ≡ some row) × (control ≡ row.control)
  unfolding control_from_tx
  control_from_tx-row db h = go db.worker_control refl h
    where
      go :
          (o : Option ControlRow) {control : WorkerControlWitness}
          → db.worker_control ≡ o
          → optional (control_from_row out) o ≡ ok (some control)
          → (row : ControlRow) × (db.worker_control ≡ some row) × (control ≡ row.control)
      go none is h = cc
      go (some row) is h =
          let (value, read, e) = >>=-eq-ok (control_from_row out row) _ h in
          (row, is, some-eq (ok-eq e) ∙ control_from_row-same row read)
