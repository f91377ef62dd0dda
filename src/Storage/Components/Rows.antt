-- ===== src/Storage/Components/Rows.antt =====
-- The rows of components: what an observation and an identity store is read back.
use text.Mathlib.TextPositions.{eq_refl}
use ascension_watchdog.Prelude.{
  ℕ, ◌≤◌, ◌≡◌, ◌↔◌, refl, String, true, Option, none, some, List, [], ◌∷◌, arith, inl, inr, ap, ◌∙◌,
  str_eq, eq_iff,
}
use ascension_watchdog.Prelude.Tests.{leb, le→leb, ◌==◌, Bool-cases}
use ascension_watchdog.Prelude.Lists.{count_where, find_where, update_where}
use ascension_watchdog.Prelude.Updates.{
  find_where-append_last, find_where-update_kept, find_where-holds,
}
use ascension_watchdog.Prelude.Word.{u32_max}
use ascension_watchdog.Prelude.Text.{byte_len}
use ascension_watchdog.Error.{ok, invalid_input, not_found, >>=-eq-ok, >>-ensure}
use ascension_watchdog.Policy.Decide.{ComponentState}
use ascension_watchdog.Storage.Db.{ComponentRow, Db, Store, commit-ok}
use ascension_watchdog.Storage.Metadata.{validate_name, sqlite_timestamp, sqlite_u32}
use ascension_watchdog.Storage.Jobs.Outcomes.{state-eq}
use ascension_watchdog.Storage.Components.{
  ComponentRecord, ProcessIdentity, identity_text, sqlite_optional_u32, component_state_as_str,
  component_state_parse, component_record_from_row, component_row, kept_identity, upsert_row,
  upsert_tx, upsert_component, row_of, component, IdentityCodec, with_identity, without_identity,
  persist_tx, persist_component_identity, component_identity, clear_tx, clear_component_identity,
  optional_detail, optional_timestamp,
}

state_parses :
    (state : ComponentState) (value : String)
    → value ≡ component_state_as_str state
    → component_state_parse value ≡ ok state
unfolding component_state_parse component_state_as_str
state_parses ComponentState.stopped value e = rw e
state_parses ComponentState.starting value e = rw e
state_parses ComponentState.running value e = rw e
state_parses ComponentState.suspect value e = rw e
state_parses ComponentState.backoff value e = rw e
state_parses ComponentState.paused value e = rw e
state_parses ComponentState.blocked value e = rw e
state_parses ComponentState.quarantined value e = rw e

-- The text of a component state parses back to it, and no other text parses to it.
pub component_state_parse_iff :
    (value : String) (state : ComponentState)
    → (component_state_parse value ≡ ok state) ↔ (value ≡ component_state_as_str state)
unfolding component_state_parse component_state_as_str
component_state_parse_iff value state = (
  λ e. ground (
    arith,
    eq_iff value "stopped",
    eq_iff value "starting",
    eq_iff value "running",
    eq_iff value "suspect",
    eq_iff value "backoff",
    eq_iff value "paused",
    eq_iff value "blocked",
    eq_iff value "quarantined",
  ),
  λ e. state_parses state value e,
)

found_one :
    (id : String) (rows : List ComponentRow)
    → 1 ≤ count_where (λ row. str_eq row.id id) rows
    → (row : ComponentRow) × (find_where (λ row. str_eq row.id id) rows ≡ some row)
found_one id [] h = absurd (omega arith)
found_one id (row ∷ rows) h = elim (Bool-cases (str_eq row.id id)) [
  | inl e ↦ (row, rw e refl)
  | inr e ↦ let (other, found) = found_one id rows (ground arith) in (other, rw e found)
]

row_of-id : (db : Db) (id : String) {row : ComponentRow} → row_of db id ≡ some row → row.id ≡ id
row_of-id db id {row = row} found =
    (eq_iff row.id id).0 (find_where-holds (λ row. str_eq row.id id) db.components found)

-- The row that an upsert leaves: the new one but for the encoded identity.
upsert_row-found :
    (db : Db) (row : ComponentRow)
    → (json : Option String) × (row_of (upsert_row db row) row.id
        ≡ some (record row { identity_json = json }))
unfolding upsert_row
upsert_row-found db row =
    elim (Bool-cases (count_where (λ other. str_eq other.id row.id) db.components == 0)) [
      | inl fresh ↦ (
        row.identity_json,
        rw fresh (
            find_where-append_last (λ other. str_eq other.id row.id) db.components row
              (ground arith) (eq_refl row.id)),
      )
      | inr used ↦
          let (old, found) = found_one row.id db.components (ground arith) in
          let is_it = find_where-holds (λ other. str_eq other.id row.id) db.components found in
          let after =
            find_where-update_kept (λ other. str_eq other.id row.id)
              (λ other. str_eq other.id row.id)
              (λ other. record row {
                id = other.id;
                identity_json = kept_identity row.launch_nonce other.identity_json;
              })
              (λ x u. refl) db.components found in
          (
            kept_identity row.launch_nonce old.identity_json,
            rw used (
                after
                ∙ rw is_it (
                    ap
                      (λ (k : String). some (record row {
                        id = k;
                        identity_json = kept_identity row.launch_nonce old.identity_json;
                      }))
                      ((eq_iff old.id row.id).0 is_it))),
          )
    ]

optional_timestamp-eq : (t : Option ℕ) {u : Option ℕ} → optional_timestamp t ≡ ok u → u ≡ t
unfolding sqlite_timestamp
optional_timestamp-eq none h = cc h
optional_timestamp-eq (some t) h = ground arith

-- A `u32` in an optional column.
abbrev FitsU32 : Option ℕ → Type 0
FitsU32 none = Unit
FitsU32 (some n) = n ≤ u32_max

optional_fits : (o : Option ℕ) → FitsU32 o → sqlite_optional_u32 o ≡ ok o
unfolding sqlite_u32
optional_fits none h = refl
optional_fits (some n) h = rw (le→leb n u32_max h) refl

decodes :
    (r : ComponentRecord) (now : ℕ) (json : Option String)
    → FitsU32 r.pid
    → r.restart_attempts ≤ u32_max
    → component_record_from_row
        (record (component_row r r.started_at_ms r.last_restart_at_ms now) { identity_json = json })
      ≡ ok r
unfolding component_record_from_row sqlite_u32
decodes r now json pid attempts =
    rw (state_parses r.state _ refl, optional_fits r.pid pid, le→leb _ _ attempts) refl

at_least_one : {n : ℕ} → (n == 1) ≡ true → 1 ≤ n
at_least_one {n} h = ground arith

upsert_tx-stores :
    (db : Db) (r : ComponentRecord) (now_ms : ℕ) {db' : Db}
    → upsert_tx db r now_ms ≡ ok (tt, db')
    → (now : ℕ) × (json : Option String) × (row_of db' r.id
        ≡ some (record (component_row r r.started_at_ms r.last_restart_at_ms now) {
          identity_json = json;
        }))
unfolding upsert_tx
upsert_tx-stores db r now_ms {db' = db'} h =
    let (_, _, h1) = >>=-eq-ok (validate_name r.id 128) _ h in
    let (_, _, h2) = >>=-eq-ok (optional_detail r.last_error) _ h1 in
    let (started, s, h3) = >>=-eq-ok (optional_timestamp r.started_at_ms) _ h2 in
    let (last, l, h4) = >>=-eq-ok (optional_timestamp r.last_restart_at_ms) _ h3 in
    let (now, _, h5) = >>=-eq-ok (sqlite_timestamp now_ms) _ h4 in
    let (json, found) = upsert_row-found db (component_row r started last now) in
    (
      now,
      json,
      ap (λ (d : Db). row_of d r.id) (state-eq _ _ _ db' h5)
          ∙ found
          ∙ ap (λ k. some (record (component_row r k last now) { identity_json = json }))
              (optional_timestamp-eq r.started_at_ms s)
          ∙ ap (λ k. some (record (component_row r r.started_at_ms k now) { identity_json = json }))
              (optional_timestamp-eq r.last_restart_at_ms l),
    )

-- A component record whose `pid` and attempts are `u32`s is read back as it was after it is stored
-- successfully, whatever row of the component was there.
pub upsert-component :
    (s : Store) (r : ComponentRecord) (now_ms : ℕ) {s' : Store}
    → upsert_component s r now_ms ≡ (ok tt, s')
    → FitsU32 r.pid
    → r.restart_attempts ≤ u32_max
    → component s' r.id ≡ ok (some r)
unfolding upsert_component component
upsert-component s r now_ms h pid attempts =
    let (db, done, e) = commit-ok s _ h in
    let (now, json, found) = upsert_tx-stores s.db r now_ms done in
    rw (e, found, decodes r now json pid attempts) refl

-- If the printed text of an identity parses back, the identity is read back after it is stored
-- successfully.
pub persist-identity :
    (codec : IdentityCodec) (s : Store) (id : String) (identity : ProcessIdentity) (now_ms : ℕ)
    {s' : Store}
    → persist_component_identity codec s id identity now_ms ≡ (ok tt, s')
    → ((text : String) → codec.encode identity ≡ ok text → codec.decode text ≡ ok identity)
    → component_identity codec s' id ≡ ok (some identity)
unfolding persist_component_identity component_identity persist_tx
persist-identity codec s id identity now_ms h parses =
    let (db, done, e) = commit-ok s _ h in
    let (_, _, h1) = >>=-eq-ok (validate_name id 128) _ done in
    let (encoded, encodes, h2) = >>=-eq-ok (codec.encode identity) _ h1 in
    let (_, h3) = >>-ensure (leb (byte_len encoded) 4096) invalid_input _ h2 in
    let (now, _, h4) = >>=-eq-ok (sqlite_timestamp now_ms) _ h3 in
    let (once, h5) =
      >>-ensure (count_where (λ row. str_eq row.id id) s.db.components == 1) not_found _ h4 in
    let (old, found) = found_one id s.db.components (at_least_one once) in
    let is_it = find_where-holds (λ row. str_eq row.id id) s.db.components found in
    let change =
      with_identity encoded identity.launch_nonce identity.pid identity.executable_digest now in
    let after =
      find_where-update_kept (λ row. str_eq row.id id) (λ row. str_eq row.id id) change
        (λ x u. refl) s.db.components found in
    rw (e, state-eq _ _ _ db h5, after, is_it, parses encoded encodes) refl

cleared :
    (codec : IdentityCodec) (now : ℕ) (id : String) (rows : List ComponentRow)
    → identity_text codec (
        find_where
          (λ row. str_eq row.id id)
          (update_where (λ row. str_eq row.id id) (without_identity now) rows))
      ≡ none
cleared codec now id [] = refl
cleared codec now id (row ∷ rows) = elim (Bool-cases (str_eq row.id id)) [
  | inl e ↦ rw (e, e) refl
  | inr e ↦ rw (e, e) (cleared codec now id rows)
]

-- After a successful clear no identity of the component is read.
pub clear-identity :
    (codec : IdentityCodec) (s : Store) (id : String) (now_ms : ℕ) {s' : Store}
    → clear_component_identity s id now_ms ≡ (ok tt, s')
    → component_identity codec s' id ≡ ok none
unfolding clear_component_identity component_identity clear_tx
clear-identity codec s id now_ms h =
    let (db, done, e) = commit-ok s _ h in
    let (now, _, h1) = >>=-eq-ok (sqlite_timestamp now_ms) _ done in
    rw (e, state-eq _ _ _ db h1, cleared codec now id s.db.components) refl
