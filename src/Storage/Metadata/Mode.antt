-- ===== src/Storage/Metadata/Mode.antt =====
-- The desired mode (crates/watchdog/src/storage_metadata.rs): its text form and its update.
use mathlib.Core.Path.{subst}
use ascension_watchdog.Prelude.{
  ℕ, ◌≡◌, ◌≢◌, ◌↔◌, refl, String, Option, some, List, [], ◌∷◌, arith, inl, inr, str_eq, eq_iff, ap,
  ◌∙◌, sym,
}
use ascension_watchdog.Prelude.Tests.{Bool-cases, if◌then◌else◌}
use ascension_watchdog.Prelude.Lists.{count_where, find_where, update_where}
use ascension_watchdog.Prelude.Text.{to_string}
use ascension_watchdog.Config.{DesiredMode, stopped, paused, running, draining}
use ascension_watchdog.Error.{ok, >>=-eq-ok}
use ascension_watchdog.Storage.Db.{Db, Store, MetadataRow, commit-ok, worker_tables, SameWorker}
use ascension_watchdog.Storage.Metadata.{
  value_of, metadata_from_conn, update_metadata_tx, mode_as_str, parse_mode, set_desired_mode_tx,
  desired_mode_from, set_desired_mode_at, insert_audit_tx,
}
use ascension_watchdog.Storage.Metadata.Ledger.{insert_audit_tx-only, insert_audit_tx-inv}

parses :
    (mode : DesiredMode) (value : String) → value ≡ mode_as_str mode → parse_mode value ≡ ok mode
unfolding parse_mode mode_as_str
parses stopped value e = rw e
parses paused value e = rw e
parses running value e = rw e
parses draining value e = rw e

-- The text of a mode parses back to it, and no other text parses to it.
pub parse_mode_iff :
    (value : String) (mode : DesiredMode)
    → (parse_mode value ≡ ok mode) ↔ (value ≡ mode_as_str mode)
unfolding parse_mode mode_as_str
parse_mode_iff value mode = (
  λ e. ground (
    arith,
    eq_iff value "stopped",
    eq_iff value "paused",
    eq_iff value "running",
    eq_iff value "draining",
  ),
  λ e. parses mode value e,
)

abbrev updated : String → String → List MetadataRow → List MetadataRow
updated key value = update_where (λ row. str_eq row.key key) (λ row. record row { value = value })

abbrev found : String → List MetadataRow → Option String
found key rows = value_of (find_where (λ row. str_eq row.key key) rows)

found-updated_self :
    (key value : String) (rows : List MetadataRow)
    → count_where (λ row. str_eq row.key key) rows ≡ 1
    → found key (updated key value rows) ≡ some value
found-updated_self key value [] h = absurd (omega arith)
found-updated_self key value (r ∷ rows) h = elim (Bool-cases (str_eq r.key key)) [
  | inl e ↦ rw e (rw e refl)
  | inr n ↦ rw n (rw n (found-updated_self key value rows (ground arith)))
]

found-updated_ne :
    (key value other : String) (rows : List MetadataRow)
    → key ≢ other
    → found other (updated key value rows) ≡ found other rows
found-updated_ne key value other [] h = refl
found-updated_ne key value other (r ∷ rows) h =
    ground (arith, eq_iff r.key key, eq_iff r.key other, found-updated_ne key value other rows h)

update_metadata_tx-inv :
    (db : Db) (key value : String) {db' : Db}
    → update_metadata_tx db key value ≡ ok db'
    → (count_where (λ row. str_eq row.key key) db.metadata ≡ 1)
      × (db' ≡ record db { metadata = updated key value db.metadata })
unfolding update_metadata_tx
update_metadata_tx-inv db key value h = ground arith

-- A successful update is read back, and leaves every other key as it was.
pub metadata-update :
    (db : Db) (key value other : String) {db' : Db}
    → update_metadata_tx db key value ≡ ok db'
    → metadata_from_conn db' other
      ≡ (if str_eq key other then some value else metadata_from_conn db other)
unfolding metadata_from_conn
metadata-update db key value other h =
    let (once, e) = update_metadata_tx-inv db key value h in
    rw e (elim (Bool-cases (str_eq key other)) [
      | inl same ↦
          rw same (rw (← (eq_iff key other).0 same) (found-updated_self key value db.metadata once))
      | inr differ ↦
          rw differ
            (found-updated_ne key value other db.metadata (λ q. cc ((eq_iff key other).1 q)))
    ])

set_desired_mode_tx-inv :
    (db : Db) (mode : DesiredMode) (now_ms : ℕ) {db' : Db}
    → set_desired_mode_tx db mode now_ms ≡ ok db'
    → (db1 db2 : Db) × (update_metadata_tx db "desired_mode" (mode_as_str mode) ≡ ok db1)
      × (update_metadata_tx db1 "updated_at_ms" (to_string now_ms) ≡ ok db2)
      × (insert_audit_tx db2 "desired_mode_changed" (mode_as_str mode) now_ms ≡ ok db')
unfolding set_desired_mode_tx
set_desired_mode_tx-inv db mode now_ms h =
    let (db1, e1, r1) = >>=-eq-ok (update_metadata_tx db "desired_mode" (mode_as_str mode)) _ h in
    let (db2, e2, r2) =
      >>=-eq-ok (update_metadata_tx db1 "updated_at_ms" (to_string now_ms)) _ r1 in
    (db1, db2, e1, e2, r2)

-- What a successful change does to the tables.
abbrev pub Changed : Db → DesiredMode → ℕ → Db → Type 0
Changed db mode now_ms db' =
    (desired_mode_from db' ≡ ok mode)
    × ((key : String)
        → metadata_from_conn db' key ≡ (
            if str_eq "updated_at_ms" key
            then some (to_string now_ms)
            else if str_eq "desired_mode" key
            then some (mode_as_str mode)
            else metadata_from_conn db key))
    × (db'.jobs ≡ db.jobs)
    × (db'.attempts ≡ db.attempts)

metadata_from_conn-same :
    (db db' : Db) (key : String)
    → db'.metadata ≡ db.metadata
    → metadata_from_conn db' key ≡ metadata_from_conn db key
unfolding metadata_from_conn
metadata_from_conn-same db db' key e = rw e

pub set_desired_mode_tx-Changed :
    (db : Db) (mode : DesiredMode) (now_ms : ℕ) {db' : Db}
    → set_desired_mode_tx db mode now_ms ≡ ok db'
    → Changed db mode now_ms db'
unfolding desired_mode_from
set_desired_mode_tx-Changed db mode now_ms h =
    let (db1, db2, e1, e2, e3) = set_desired_mode_tx-inv db mode now_ms h in
    let (_, _, jobs, attempts, metadata) =
      insert_audit_tx-inv db2 "desired_mode_changed" (mode_as_str mode) now_ms e3 in
    let (_, set1) = update_metadata_tx-inv db _ _ e1 in
    let (_, set2) = update_metadata_tx-inv db1 _ _ e2 in
    let read = λ (key : String).
      metadata_from_conn-same db2 _ key metadata
      ∙ metadata-update db1 "updated_at_ms" (to_string now_ms) key e2 in
    let read1 = λ (key : String). metadata-update db "desired_mode" (mode_as_str mode) key e1 in
    (
      rw (read "desired_mode" ∙ read1 "desired_mode") (parses mode _ refl),
      λ key.
          read key
          ∙ ap
              (λ (o : Option String).
                if str_eq "updated_at_ms" key then some (to_string now_ms) else o)
              (read1 key),
      jobs ∙ ap (λ d. d.jobs) set2 ∙ ap (λ d. d.jobs) set1,
      attempts ∙ ap (λ d. d.attempts) set2 ∙ ap (λ d. d.attempts) set1,
    )

-- After a successful change the store reads the new mode, the update time is the call's, and every
-- other metadata key, the jobs and the attempts are as before.
pub set_desired_mode-Changed :
    (s : Store) (mode : DesiredMode) (now_ms : ℕ) {s' : Store}
    → set_desired_mode_at s mode now_ms ≡ (ok tt, s')
    → Changed s.db mode now_ms s'.db
unfolding set_desired_mode_at
set_desired_mode-Changed s mode now_ms h =
    let (db, done, e) = commit-ok s _ h in
    let (db', set, same) = >>=-eq-ok (set_desired_mode_tx s.db mode now_ms) _ done in
    let at : db' ≡ db = cc same in
    subst (λ (t : Store). Changed s.db mode now_ms t.db) (sym e)
      (subst (Changed s.db mode now_ms) at (set_desired_mode_tx-Changed s.db mode now_ms set))

pub set_desired_mode_tx-intents :
    (db : Db) (mode : DesiredMode) (now_ms : ℕ) {db' : Db}
    → set_desired_mode_tx db mode now_ms ≡ ok db'
    → db'.intents ≡ db.intents
set_desired_mode_tx-intents db mode now_ms h =
    let (db1, db2, e1, e2, e3) = set_desired_mode_tx-inv db mode now_ms h in
    let (_, set1) = update_metadata_tx-inv db _ _ e1 in
    let (_, set2) = update_metadata_tx-inv db1 _ _ e2 in
    ap (λ (d : Db). d.intents) (insert_audit_tx-only db2 _ _ now_ms e3)
    ∙ ap (λ (d : Db). d.intents) set2
    ∙ ap (λ (d : Db). d.intents) set1

pub set_desired_mode_tx-worker :
    (db : Db) (mode : DesiredMode) (now_ms : ℕ) {db' : Db}
    → set_desired_mode_tx db mode now_ms ≡ ok db'
    → SameWorker db db'
set_desired_mode_tx-worker db mode now_ms h =
    let (db1, db2, e1, e2, e3) = set_desired_mode_tx-inv db mode now_ms h in
    let (_, set1) = update_metadata_tx-inv db _ _ e1 in
    let (_, set2) = update_metadata_tx-inv db1 _ _ e2 in
    ap worker_tables (insert_audit_tx-only db2 _ _ now_ms e3)
    ∙ ap worker_tables set2
    ∙ ap worker_tables set1
