-- ===== src/Storage/Jobs/Oldest.antt =====
-- Which job a claim takes, and when it takes none.
use mathlib.Core.Path.{subst}
use ascension_watchdog.Prelude.{
  ℕ, suc, ◌+◌, ◌≤◌, ◌<◌, ◌≡◌, ◌≢◌, ◌⊎◌, refl, String, Bool, true, false, Option, none, some, List,
  arith, inl, inr, ap, sym, not, ◌||◌, ◌∙◌, str_eq, eq_iff,
}
use ascension_watchdog.Prelude.Tests.{ltb, ◌==◌, Bool-cases}
use ascension_watchdog.Prelude.Lists.{keep_where, count_where}
use ascension_watchdog.Prelude.Earliest.{IsEarliest, earliest_by-IsEarliest}
use ascension_watchdog.Prelude.Text.{substr, substr-whole, byte_len}
use ascension_watchdog.Config.{DesiredMode}
use ascension_watchdog.Error.{Result, ok, err, conflict, >>=-eq-ok, if-cases}
use ascension_watchdog.Storage.Db.{JobStatus, JobRow, Db, Store, commit-ok}
use ascension_watchdog.Storage.Metadata.{validate_name, sqlite_timestamp, desired_mode_from}
use ascension_watchdog.Storage.Jobs.{Codec, JobClaim, validate_claim_payload}
use ascension_watchdog.Storage.Jobs.Claim.{
  is_running_mode, is_claimable, next_attempt_number, claim_writes, payload_read_limit, claim_of,
  claim_row, claim_tx, claim_next_job,
}
use ascension_watchdog.Storage.Jobs.Select.{
  row_before, oldest, is_queued, is_due, is_ready, unresolved_attempts,
}

-- A queued row whose retry time has come.
abbrev pub Ready : ℕ → JobRow → Type 0
Ready now_ms row =
    (row.status ≡ JobStatus.queued) × ((at : ℕ) × (row.next_retry_at_ms ≡ some at) × (at ≤ now_ms))

-- A row that is not queued, has no retry time, or one that has not come.
abbrev pub Unready : ℕ → JobRow → Type 0
Unready now_ms row =
    (row.status ≢ JobStatus.queued)
    ⊎ (row.next_retry_at_ms ≡ none)
    ⊎ ((at : ℕ) × (row.next_retry_at_ms ≡ some at) × (now_ms < at))

due-Ready :
    (o : Option ℕ) (now_ms : ℕ) → is_due o now_ms ≡ true → (at : ℕ) × (o ≡ some at) × (at ≤ now_ms)
due-Ready none now_ms h = cc h
due-Ready (some at) now_ms h = (at, refl, ground arith)

due-Unready :
    (o : Option ℕ) (now_ms : ℕ)
    → is_due o now_ms ≡ false
    → (o ≡ none) ⊎ ((at : ℕ) × (o ≡ some at) × (now_ms < at))
due-Unready none now_ms h = inl refl
due-Unready (some at) now_ms h = inr (at, refl, ground arith)

queued-status : (status : JobStatus) → is_queued status ≡ true → status ≡ JobStatus.queued
queued-status status h = ground arith

unqueued-status : (status : JobStatus) → is_queued status ≡ false → status ≢ JobStatus.queued
unqueued-status status h e = ground arith

pub is_ready-Ready : (now_ms : ℕ) (row : JobRow) → is_ready now_ms row ≡ true → Ready now_ms row
is_ready-Ready now_ms row h = elim (Bool-cases (is_queued row.status)) [
  | inl q ↦ (queued-status row.status q, due-Ready row.next_retry_at_ms now_ms (rw q at h))
  | inr q ↦ cc (rw q at h)
]

pub is_ready-Unready :
    (now_ms : ℕ) (row : JobRow) → is_ready now_ms row ≡ false → Unready now_ms row
is_ready-Unready now_ms row h = elim (Bool-cases (is_queued row.status)) [
  | inl q ↦ inr (due-Unready row.next_retry_at_ms now_ms (rw q at h))
  | inr q ↦ inl (unqueued-status row.status q)
]

-- A row of the store that is ready, and no ready row is earlier.
abbrev pub IsNext : ℕ → List JobRow → JobRow → Type 0
IsNext now_ms rows row = IsEarliest (Ready now_ms) (Unready now_ms) (λ r. r.created_at_ms) rows row

oldest-IsNext :
    (now_ms : ℕ) (rows : List JobRow) {row : JobRow}
    → oldest (keep_where (is_ready now_ms) rows) ≡ some row
    → IsNext now_ms rows row
unfolding oldest
oldest-IsNext now_ms rows h =
    earliest_by-IsEarliest row_before (λ r. r.created_at_ms) (λ a b e. ground arith)
      (λ a b e. ground arith) (Ready now_ms) (Unready now_ms) (is_ready now_ms) rows
      (is_ready-Ready now_ms) (is_ready-Unready now_ms) h

pub timestamp-eq : (now_ms : ℕ) {t : ℕ} → sqlite_timestamp now_ms ≡ ok t → t ≡ now_ms
unfolding sqlite_timestamp
timestamp-eq now_ms h = ground arith

pub number-eq : (count : ℕ) {n : ℕ} → next_attempt_number count ≡ ok n → n ≡ count + 1
unfolding next_attempt_number
number-eq count h = ground arith

may_claim :
    (mode : DesiredMode) (n : ℕ)
    → (not (is_running_mode mode) || ltb 0 n) ≡ false
    → (mode ≡ DesiredMode.running) × (n ≡ 0)
may_claim mode n h = ground arith

-- The text of a payload is within the bound, has the recorded digest, and parses to
-- the value.
pub record IsPayload {Value : Type 0} (codec : Codec Value) (bound : ℕ) (digest text : String)
    (value : Value) : Type 0 where
  pub bounded : byte_len text ≤ bound
  pub digested : codec.hex_digest text ≡ digest
  pub parsed : codec.from_text text ≡ ok value

within_digest : (long same : Bool) → (long || not same) ≡ false → (long ≡ false) × (same ≡ true)
within_digest long same h = ground arith

parsed_ok :
    {Value : Type 0} (r : Result Value) {v : Value}
    → (elim r [ ok value ↦ ok value | err _ ↦ err conflict ]) ≡ ok v
    → r ≡ ok v
parsed_ok (ok value) h = h
parsed_ok (err e) h = cc h

module _ {Value : Type 0} (codec : Codec Value) where
  validated :
      (bound : ℕ) (digest text : String) {v : Value}
      → validate_claim_payload codec text digest bound ≡ ok v
      → IsPayload codec bound digest text v
  unfolding validate_claim_payload
  validated bound digest text h =
      elim (if-cases (ltb bound (byte_len text) || not (str_eq (codec.hex_digest text) digest)) _ _
        h) [
          | inl (_, e) ↦ cc e
          | inr (fine, e) ↦
              let (short, same) =
                within_digest (ltb bound (byte_len text)) (str_eq (codec.hex_digest text) digest)
                  fine in
              record {
                bounded = ground (arith, short);
                digested = (eq_iff (codec.hex_digest text) digest).0 same;
                parsed = parsed_ok (codec.from_text text) e;
              }
        ]

  claim_row-some :
      (db : Db) (limit bound : ℕ) (o : Option JobRow) (worker_id attempt_id : String)
      (timestamp : ℕ) {c : JobClaim Value} {db' : Db}
      → claim_row codec db limit bound o worker_id attempt_id timestamp ≡ ok (some c, db')
      → (row : JobRow) × (o ≡ some row)
        × (c.job.id ≡ row.id)
        × (c.attempt_number ≡ row.attempt_count + 1)
        × IsPayload codec bound row.payload_digest (substr limit row.payload) c.job.payload
  unfolding claim_row
  claim_row-some db limit bound none worker_id attempt_id timestamp h = cc
  claim_row-some db limit bound (some row) worker_id attempt_id timestamp {c = c} h =
      let (_, _, h1) = >>=-eq-ok (validate_name row.id 128) _ h in
      let (_, _, h2) = >>=-eq-ok (validate_name row.kind 128) _ h1 in
      let (v, valid, h3) =
        >>=-eq-ok (validate_claim_payload codec (substr limit row.payload) row.payload_digest bound)
          _ h2 in
      let (number, next, h4) = >>=-eq-ok (next_attempt_number row.attempt_count) _ h3 in
      elim (if-cases (not (count_where (is_claimable row.id) db.jobs == 1)) _ _ h4) [
        | inl (_, nothing) ↦ cc nothing
        | inr (_, h5) ↦
            let (written, _, e) =
              >>=-eq-ok (claim_writes db row worker_id attempt_id timestamp number) _ h5 in
            let is : claim_of codec row v worker_id attempt_id timestamp number ≡ c = cc e in
            (
              row,
              refl,
              sym (ap (λ c. c.job.id) is),
              sym (ap (λ c. c.attempt_number) is) ∙ number-eq row.attempt_count next,
              validated bound row.payload_digest (substr limit row.payload)
                  (valid ∙ ap (λ (c : JobClaim Value). ok c.job.payload) is),
            )
      ]

  -- What a claim that returns a job says of the row that it took.
  abbrev pub Takes : Store → ℕ → JobClaim Value → JobRow → Type 0
  Takes s now_ms c row =
      IsNext now_ms s.db.jobs row
      × (c.job.id ≡ row.id)
      × (c.attempt_number ≡ row.attempt_count + 1)
      × IsPayload codec s.max_payload_bytes row.payload_digest row.payload c.job.payload

  limit-eq : (n : ℕ) {limit : ℕ} → payload_read_limit n ≡ ok limit → limit ≡ suc n
  unfolding payload_read_limit
  limit-eq n h = ground arith

  claim_tx-some :
      (s : Store) (worker_id : String) (now_ms : ℕ) (attempt_id : String) {c : JobClaim Value}
      {db' : Db}
      → claim_tx codec s worker_id now_ms attempt_id ≡ ok (some c, db')
      → (desired_mode_from s.db ≡ ok DesiredMode.running)
        × (unresolved_attempts s.db ≡ 0)
        × ((row : JobRow) × Takes s now_ms c row)
  unfolding claim_tx
  claim_tx-some s worker_id now_ms attempt_id {c = c} h =
      let (_, _, h1) = >>=-eq-ok (validate_name worker_id 128) _ h in
      let (limit, e, h2) = >>=-eq-ok (payload_read_limit s.max_payload_bytes) _ h1 in
      let (mode, m, h3) = >>=-eq-ok (desired_mode_from s.db) _ h2 in
      elim (if-cases (not (is_running_mode mode) || ltb 0 (unresolved_attempts s.db)) _ _ h3) [
        | inl (_, nothing) ↦ cc nothing
        | inr (free, h4) ↦
            let (is_running, none_left) = may_claim mode _ free in
            let (timestamp, t, h5) = >>=-eq-ok (sqlite_timestamp now_ms) _ h4 in
            let (row, o, id, number, payload) =
              claim_row-some s.db limit s.max_payload_bytes _ worker_id attempt_id timestamp h5 in
            let read =
              subst
                (λ (n : ℕ).
                  IsPayload codec s.max_payload_bytes row.payload_digest (substr n row.payload)
                    c.job.payload)
                (limit-eq s.max_payload_bytes e) payload in
            (
              m ∙ ap (λ (m : DesiredMode). ok m) is_running,
              none_left,
              (
                row,
                (
                  subst (λ (n : ℕ). IsNext n s.db.jobs row) (timestamp-eq now_ms t)
                      (oldest-IsNext timestamp s.db.jobs o),
                  id,
                  number,
                  subst
                      (λ text.
                        IsPayload codec s.max_payload_bytes row.payload_digest text c.job.payload)
                      (substr-whole s.max_payload_bytes row.payload read.bounded) read,
                ),
              ),
            )
      ]

  -- A claim that returns a job was made in running mode with no unresolved attempt, and took a
  -- ready row of the store than which no ready row is earlier; the claim's number follows the row's
  -- attempts, and its payload is parsed from the row's text, which is within the bound and has the
  -- recorded digest.
  pub claim-next :
      (s : Store) (worker_id : String) (now_ms : ℕ) (attempt_id : String) {c : JobClaim Value}
      {s' : Store}
      → claim_next_job codec s worker_id now_ms attempt_id ≡ (ok (some c), s')
      → (desired_mode_from s.db ≡ ok DesiredMode.running)
        × (unresolved_attempts s.db ≡ 0)
        × ((row : JobRow) × Takes s now_ms c row)
  unfolding claim_next_job
  claim-next s worker_id now_ms attempt_id h =
      let (_, done, _) = commit-ok s _ h in claim_tx-some s worker_id now_ms attempt_id done
