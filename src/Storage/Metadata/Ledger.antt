-- ===== src/Storage/Metadata/Ledger.antt =====
-- The audit ledger (crates/watchdog/src/storage_metadata.rs): its bound and its two reserves.
use ascension_watchdog.Prelude.{
  ℕ, ◌+◌, ◌≤◌, ◌<◌, ◌≡◌, refl, true, false, String, List, [], ◌∷◌, ◌++◌, arith, inl, inr, ◌⊎◌,
}
use ascension_watchdog.Prelude.Lists.{length, length-append, All}
use ascension_watchdog.Prelude.Word.{i64_max}
use ascension_watchdog.Error.{Result, ok, err}
use ascension_watchdog.Storage.Db.{Db}
use ascension_watchdog.Storage.Metadata.{
  validate_name, validate_detail, sqlite_timestamp, audit_limit, insert_audit_tx,
  is_critical_audit_action, is_emergency_stop_audit_action,
}

-- One attempt to add to the ledger.
pub record Event : Type 0 where
  pub action : String
  pub detail : String
  pub now_ms : ℕ

abbrev or_unchanged : Db → Result Db → Db
or_unchanged db (ok db') = db'
or_unchanged db (err e) = db

-- The ledger after attempts of which the refused ones change nothing.
unfoldable pub attempt_all : Db → List Event → Db
attempt_all db [] = db
attempt_all db (e ∷ es) =
    attempt_all (or_unchanged db (insert_audit_tx db e.action e.detail e.now_ms)) es

-- An attempt succeeds exactly when it is well formed and the ledger is below the action's limit.
pub insert_audit_tx_ok :
    (db : Db) (action detail : String) (now_ms : ℕ)
    → validate_name action 128 ≡ ok tt
    → validate_detail detail ≡ ok tt
    → now_ms ≤ i64_max
    → length db.audit < audit_limit action
    → (db' : Db) × (insert_audit_tx db action detail now_ms ≡ ok db')
unfolding insert_audit_tx sqlite_timestamp
insert_audit_tx_ok db action detail now_ms n d t room = (
  record db {
    audit = db.audit ++ record { action = action; detail = detail; occurred_at_ms = now_ms } ∷ [];
  },
  rw (n, d) (ground arith),
)

-- What a success does: one row more, below the limit, and no other table touched.
pub insert_audit_tx-inv :
    (db : Db) (action detail : String) (now_ms : ℕ) {db' : Db}
    → insert_audit_tx db action detail now_ms ≡ ok db'
    → (length db.audit < audit_limit action)
      × (length db'.audit ≡ length db.audit + 1)
      × (db'.jobs ≡ db.jobs)
      × (db'.attempts ≡ db.attempts)
      × (db'.metadata ≡ db.metadata)
unfolding insert_audit_tx sqlite_timestamp
insert_audit_tx-inv db action detail now_ms h = ground (
  arith,
  length-append db.audit
      (record { action = action; detail = detail; occurred_at_ms = now_ms } ∷ []),
)

-- A success writes the ledger alone.
pub insert_audit_tx-only :
    (db : Db) (action detail : String) (now_ms : ℕ) {db' : Db}
    → insert_audit_tx db action detail now_ms ≡ ok db'
    → db' ≡ record db { audit = db'.audit }
unfolding insert_audit_tx sqlite_timestamp
insert_audit_tx-only db action detail now_ms h = ground arith

attempt-le :
    (db : Db) (action detail : String) (now_ms k : ℕ)
    → length db.audit ≤ k
    → audit_limit action ≤ k
    → (r : Result Db) → insert_audit_tx db action detail now_ms ≡ r
    → length (or_unchanged db r).audit ≤ k
attempt-le db action detail now_ms k h l (ok db') e =
    omega (arith, insert_audit_tx-inv db action detail now_ms e)
attempt-le db action detail now_ms k h l (err x) e = h

-- A ledger within `k` stays within `k` under attempts whose limits do.
attempt_all-le :
    (k : ℕ) (db : Db) (es : List Event)
    → length db.audit ≤ k
    → All (λ e. audit_limit e.action ≤ k) es
    → length (attempt_all db es).audit ≤ k
unfolding attempt_all
attempt_all-le k db [] h a = h
attempt_all-le k db (e ∷ es) h a =
    attempt_all-le k (or_unchanged db (insert_audit_tx db e.action e.detail e.now_ms)) es
      (attempt-le db e.action e.detail e.now_ms k h a.0 _ refl) a.1

limit-le : (action : String) → audit_limit action ≤ 4097
unfolding audit_limit
limit-le action = ground arith

All-limits : (es : List Event) → All (λ e. audit_limit e.action ≤ 4097) es
All-limits [] = tt
All-limits (e ∷ es) = (limit-le e.action, All-limits es)

abbrev pub IsOrdinary : Event → Type 0
IsOrdinary e =
    (is_critical_audit_action e.action ≡ false) × (is_emergency_stop_audit_action e.action ≡ false)

All-ordinary : (es : List Event) → All IsOrdinary es → All (λ e. audit_limit e.action ≤ 4088) es
unfolding audit_limit
All-ordinary [] a = tt
All-ordinary (e ∷ es) a = (ground arith, All-ordinary es a.1)

abbrev pub IsNoStop : Event → Type 0
IsNoStop e = is_emergency_stop_audit_action e.action ≡ false

All-no_stop : (es : List Event) → All IsNoStop es → All (λ e. audit_limit e.action ≤ 4096) es
unfolding audit_limit
All-no_stop [] a = tt
All-no_stop (e ∷ es) a = (ground arith, All-no_stop es a.1)

-- Whatever is attempted, the ledger never passes 4097 rows.
pub attempt_all-bounded :
    (db : Db) (es : List Event) → length db.audit ≤ 4097 → length (attempt_all db es).audit ≤ 4097
attempt_all-bounded db es h = attempt_all-le 4097 db es h (All-limits es)

-- After any attempts by ordinary actions on an empty ledger, a well-formed critical action is still
-- admitted; after any attempts that contain no emergency stop, a well-formed emergency stop is.
pub reserves_hold :
    (db : Db) (es : List Event) (action detail : String) (now_ms : ℕ)
    → length db.audit ≡ 0
    → validate_name action 128 ≡ ok tt
    → validate_detail detail ≡ ok tt
    → now_ms ≤ i64_max
    → ((All IsOrdinary es × (is_critical_audit_action action ≡ true))
        ⊎ (All IsNoStop es × (is_emergency_stop_audit_action action ≡ true)))
    → (db' : Db) × (insert_audit_tx (attempt_all db es) action detail now_ms ≡ ok db')
unfolding audit_limit
reserves_hold db es action detail now_ms z n d t (inl (o, c)) =
    insert_audit_tx_ok _ action detail now_ms n d t
      (ground (arith, attempt_all-le 4088 db es (omega arith) (All-ordinary es o)))
reserves_hold db es action detail now_ms z n d t (inr (o, c)) =
    insert_audit_tx_ok _ action detail now_ms n d t
      (ground (arith, attempt_all-le 4096 db es (omega arith) (All-no_stop es o)))
