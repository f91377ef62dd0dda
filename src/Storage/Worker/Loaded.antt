-- ===== src/Storage/Worker/Loaded.antt =====
-- What a hand-off that was loaded says of its row.
use mathlib.Core.Path.{subst}
use ascension_watchdog.Prelude.{
  ℕ, ◌≡◌, refl, String, true, Option, none, some, inl, inr, ap, sym, ◌∙◌,
}
use ascension_watchdog.Prelude.Tests.{Bool-cases, if◌then◌else◌, leb}
use ascension_watchdog.Prelude.Text.{byte_len}
use ascension_watchdog.Prelude.Lists.{find_where}
use ascension_watchdog.Error.{
  Result, ok, err, conflict, invalid_input, sqlite, ◌>>=◌, >>=-eq-ok, >>-ensure, as_sqlite-ok,
  ok-eq, if-cases,
}
use ascension_watchdog.Storage.Db.{Db, Store}
use ascension_watchdog.Storage.Metadata.{validate_name, sqlite_u32}
use ascension_watchdog.Storage.Launch.{is_digest}
use ascension_watchdog.Storage.Worker.Types.{
  max_worker_wire_integer, WorkerTerminalStatus, WorkerHandoffTuple, WorkerTerminalRecord,
  HandoffRow,
}
use ascension_watchdog.Storage.Worker.Outside.{Outside}
use ascension_watchdog.Storage.Worker.Validate.{validate_digest_value, validate_uuid4}
use ascension_watchdog.Storage.Worker.Control.{optional}
use ascension_watchdog.Storage.Worker.Jobs.{or_marker}
use ascension_watchdog.Storage.Worker.Rows.{
  RawHandoff, max_terminal_ref_bytes, terminal_from, terminal_from_row, parameters_from, raw_of,
  raw_handoff_from_row, validate_row_identity, validate_terminal_projection,
}
use ascension_watchdog.Storage.Worker.Queries.{
  WorkerHandoff, handoff_row, same_tuple, missing_handoff, is_attempt_handoff, load_handoff_tx,
  checked_job, require_handoff_tx, handoff_from_raw, worker_handoff, ensure_tuple_matches,
}
use ascension_watchdog.Storage.Worker.Dispatch.{current_handoff}

pub optional-some :
    {A B : Type 0} (read : A → Result B) (o : Option A) {b : B}
    → optional read o ≡ ok (some b)
    → (a : A) × (o ≡ some a) × (read a ≡ ok b)
optional-some read none h = cc
optional-some read (some a) {b = b} h =
    let (b', e, same) = >>=-eq-ok (read a) _ h in
    let is : b' ≡ b = cc same in (a, refl, e ∙ ap (λ x. ok x) is)

module _ {Value Uuid : Type 0} (out : Outside Value Uuid) where
  -- A decoded row.
  pub record Decodes (row : HandoffRow) (raw : RawHandoff Value) : Type 0 where
    pub parameters : Value
    pub terminal : Option WorkerTerminalRecord
    pub read : terminal_from_row out row ≡ ok terminal
    pub is : raw ≡ raw_of out row parameters terminal

  pub raw_handoff-Decodes :
      (row : HandoffRow) {raw : RawHandoff Value}
      → raw_handoff_from_row out row ≡ ok raw
      → Decodes row raw
  unfolding raw_handoff_from_row
  raw_handoff-Decodes row h =
      let (_, _, h1) = >>=-eq-ok (validate_row_identity out row) _ (as_sqlite-ok _ h) in
      let (_, _, h2) = >>=-eq-ok (sqlite_u32 row.tuple.attempt_number) _ h1 in
      let (parameters, _, h3) = >>=-eq-ok (parameters_from out row) _ h2 in
      let (terminal, read, h4) = >>=-eq-ok (terminal_from_row out row) _ h3 in
      let (_, _, e) =
        >>=-eq-ok
          (validate_terminal_projection out row.tuple row.state terminal
            (or_marker 65536 "\u{1}" row.terminal_result) row.ack_intent row.created_at_ms
            row.updated_at_ms row.dispatched_at_ms row.admitted_at_ms row.terminal_at_ms
            row.acknowledged_at_ms)
          _ h4 in
      record { parameters = parameters; terminal = terminal; read = read; is = ok-eq e }

  -- A loaded hand-off of a tuple.
  pub record Loads (s : Store) (tuple : WorkerHandoffTuple) (raw : RawHandoff Value) : Type 0 where
    pub row : HandoffRow
    pub found : handoff_row s.db tuple.handoff_id ≡ some row
    pub decodes : Decodes row raw
    pub matches : same_tuple raw.tuple tuple ≡ true

  require_handoff-found :
      (db : Db) (tuple : WorkerHandoffTuple) (bound : ℕ) {raw : RawHandoff Value}
      → require_handoff_tx out db tuple bound ≡ ok raw
      → load_handoff_tx out db tuple.handoff_id ≡ ok (some raw)
  unfolding require_handoff_tx missing_handoff
  require_handoff-found db tuple bound {raw = raw} h =
      let (found, e, h1) = >>=-eq-ok (load_handoff_tx out db tuple.handoff_id) _ h in
      e ∙ ap (λ x. ok x) (go found h1)
    where
      missing :
          (o : Option HandoffRow)
          → missing_handoff o ≡ ok raw
          → ◌≡◌ {A = Option (RawHandoff Value)} none (some raw)
      missing none h2 = cc
      missing (some other) h2 =
          elim (if-cases (leb (byte_len other.tuple.handoff_id) 36) (err conflict) (err sqlite)
            h2) [ inl (_, e) ↦ cc | inr (_, e) ↦ cc ]

      go :
          (found : Option (RawHandoff Value))
          → (elim found [
            | some r ↦ (checked_job out db bound r >>= λ job. ok r)
            | none ↦ missing_handoff (find_where (is_attempt_handoff tuple) db.worker_handoffs)
          ])
            ≡ ok raw
          → found ≡ some raw
      go (some r) h2 =
          let (_, _, same) = >>=-eq-ok (checked_job out db bound r) _ h2 in
          ap (λ x. some x) (sym (ok-eq same))
      go none h2 = missing (find_where (is_attempt_handoff tuple) db.worker_handoffs) h2

  pub current_handoff-Loads :
      (s : Store) (tuple : WorkerHandoffTuple) {raw : RawHandoff Value}
      → current_handoff out s tuple ≡ ok raw
      → Loads s tuple raw
  unfolding current_handoff ensure_tuple_matches load_handoff_tx
  current_handoff-Loads s tuple {raw = raw} h =
      let (current, required_ok, h1) =
        >>=-eq-ok (require_handoff_tx out s.db tuple s.max_payload_bytes) _ h in
      let (matches, e) = >>-ensure (same_tuple current.tuple tuple) conflict _ h1 in
      let is : current ≡ raw = sym (ok-eq e) in
      let (row, found, decoded) =
        optional-some (raw_handoff_from_row out) (handoff_row s.db tuple.handoff_id)
          (require_handoff-found s.db tuple s.max_payload_bytes required_ok) in
      record {
        row = row;
        found = found;
        decodes =
            subst (λ (r : RawHandoff Value). Decodes row r) is (raw_handoff-Decodes row decoded);
        matches = subst (λ (r : RawHandoff Value). same_tuple r.tuple tuple ≡ true) is matches;
      }

  -- A hand-off that is read is loaded again, by the tuple of its row.
  pub reads-current :
      (s : Store) (tuple : WorkerHandoffTuple) {handoff : WorkerHandoff Value}
      → worker_handoff out s tuple.handoff_id ≡ ok (some handoff)
      → ((row : HandoffRow)
          → handoff_row s.db tuple.handoff_id ≡ some row
          → same_tuple row.tuple tuple ≡ true)
      → (raw : RawHandoff Value) × (current_handoff out s tuple ≡ ok raw)
  unfolding worker_handoff handoff_from_raw current_handoff require_handoff_tx ensure_tuple_matches
      load_handoff_tx
  reads-current s tuple h matches =
      let (_, _, h1) = >>=-eq-ok (validate_uuid4 out tuple.handoff_id) _ h in
      let (found, loaded, h2) = >>=-eq-ok (load_handoff_tx out s.db tuple.handoff_id) _ h1 in
      let (raw, is, built) =
        optional-some (handoff_from_raw out s.db s.max_payload_bytes) found h2 in
      let (job, checked, _) = >>=-eq-ok (checked_job out s.db s.max_payload_bytes raw) _ built in
      let (row, at, decoded) =
        optional-some (raw_handoff_from_row out) (handoff_row s.db tuple.handoff_id)
          (loaded ∙ ap (λ x. ok x) is) in
      let d = raw_handoff-Decodes row decoded in
      let same : same_tuple raw.tuple tuple ≡ true =
        ap (λ (r : RawHandoff Value). same_tuple r.tuple tuple) d.is ∙ matches row at in
      (raw, rw (loaded, is, checked, same) refl)

  -- What its row has in the columns of the receipt, a terminal hand-off has in its receipt.
  digest_kept :
      (digest : String)
      → is_digest (if leb (byte_len digest) 64 then digest else "\u{1}") ≡ true
      → (if leb (byte_len digest) 64 then digest else "\u{1}") ≡ digest
  unfolding is_digest
  digest_kept digest h = elim (Bool-cases (leb (byte_len digest) 64)) [
    | inl e ↦ rw e refl
    | inr e ↦ cc (rw e at h)
  ]

  -- The receipt of five columns that are there, in a row that decodes.
  terminal_from-some :
      (status : WorkerTerminalStatus) (reference result_digest digest : String) (sequence : ℕ)
      {terminal : Option WorkerTerminalRecord}
      → terminal_from
          (some status)
          (some reference)
          (or_marker 64 "\u{1}" (some result_digest))
          (or_marker 64 "\u{1}" (some digest))
          (some sequence)
        ≡ ok terminal
      → (t : WorkerTerminalRecord) × (terminal ≡ some t)
        × (t.terminal_digest ≡ digest)
        × (t.result_digest ≡ result_digest)
  unfolding terminal_from validate_digest_value
  terminal_from-some status reference result_digest digest sequence {terminal = terminal} h =
      let result = if leb (byte_len result_digest) 64 then result_digest else "\u{1}" in
      let stored = if leb (byte_len digest) 64 then digest else "\u{1}" in
      let (_, h1) = >>-ensure (leb sequence max_worker_wire_integer) sqlite _ h in
      let (_, _, h2) = >>=-eq-ok (validate_name reference max_terminal_ref_bytes) _ h1 in
      let (valid_result, h3) = >>-ensure (is_digest result) invalid_input _ h2 in
      let (valid, h4) = >>-ensure (is_digest stored) invalid_input _ h3 in
      (
        record {
          status = status;
          checkpoint_sequence = sequence;
          terminal_ref = reference;
          result_digest = result;
          terminal_digest = stored;
        },
        ok-eq h4,
        digest_kept digest valid,
        digest_kept result_digest valid_result,
      )

  -- The same, of a loaded hand-off whose row has the columns of a receipt.
  pub Decodes-receipt :
      (row : HandoffRow) (raw : RawHandoff Value) (status : WorkerTerminalStatus)
      (reference result_digest digest : String) (sequence : ℕ)
      → Decodes row raw
      → row.terminal_status ≡ some status
      → row.terminal_ref ≡ some reference
      → row.result_digest ≡ some result_digest
      → row.terminal_digest ≡ some digest
      → row.checkpoint_sequence ≡ some sequence
      → (t : WorkerTerminalRecord) × (raw.terminal ≡ some t)
        × (t.terminal_digest ≡ digest)
        × (t.result_digest ≡ result_digest)
  unfolding terminal_from_row
  Decodes-receipt row raw status reference result_digest digest sequence d es er erd ed eq =
      let (t, is, digests, results) =
        terminal_from-some status (if leb (byte_len reference) 1024 then reference else "\u{1}")
          result_digest digest sequence (rw (es, er, erd, ed, eq) at d.read) in
      (t, ap (λ (r : RawHandoff Value). r.terminal) d.is ∙ is, digests, results)
