-- ===== src/Storage/Jobs/Outcomes.antt =====
-- What a successful transaction of the queue did: nothing, or one move of one job.
use mathlib.Core.Path.{subst}
use ascension_watchdog.Config.{DesiredMode}
use ascension_watchdog.Prelude.{
  ℕ, ◌≡◌, ◌⊎◌, false, not, ◌||◌, String, Option, none, some, arith, inl, inr, sym,
}
use ascension_watchdog.Prelude.Tests.{ltb, ◌==◌}
use ascension_watchdog.Prelude.Lists.{count_where}
use ascension_watchdog.Prelude.Text.{substr}
use ascension_watchdog.Error.{
  Result, ok, conflict, invalid_input, >>=-eq-ok, >>-ensure, if-err, if-cases,
}
use ascension_watchdog.Storage.Db.{JobStatus, JobRow, Db, Store}
use ascension_watchdog.Storage.Metadata.{
  validate_name, validate_detail, sqlite_timestamp, desired_mode_from,
}
use ascension_watchdog.Storage.Jobs.{Codec, JobClaim, Completion, validate_claim_payload}
use ascension_watchdog.Storage.Jobs.Select.{is_completed, job_row, unresolved_attempts}
use ascension_watchdog.Storage.Jobs.Counts.{
  Stops, Starts, Submits, complete_writes-Stops, fail_writes-Stops, claim_writes-Starts,
  insert_job_tx-Submits,
}
use ascension_watchdog.Storage.Jobs.Submit.{insert_job_tx, submit_tx}
use ascension_watchdog.Storage.Jobs.Claim.{
  is_claimable, next_attempt_number, claim_writes, payload_read_limit, claim_row, claim_tx,
  is_running_mode,
}
use ascension_watchdog.Storage.Jobs.Complete.{
  complete_writes, repeat_tx, complete_row, complete_tx, parse_or_null,
}
use ascension_watchdog.Storage.Jobs.Fail.{fail_writes, fail_row, fail_tx}

-- The state in a result that is known.
pub state-eq {ℓ} :
    {A : Type ℓ} (a b : A) (db db' : Db)
    → ◌≡◌ {A = Result (A × Db)} (ok (a, db)) (ok (b, db'))
    → db' ≡ db
state-eq a b db db' e = cc e

pub answer-eq {ℓ} :
    {A : Type ℓ} (a b : A) (db db' : Db)
    → ◌≡◌ {A = Result (A × Db)} (ok (a, db)) (ok (b, db'))
    → b ≡ a
answer-eq a b db db' e = cc e

module _ {Value : Type 0} (codec : Codec Value) (null : Value) where
  repeat_tx-same :
      (db : Db) (row : JobRow) (job_id attempt_id digest : String) {c : Completion Value} {db' : Db}
      → repeat_tx codec null db row job_id attempt_id digest ≡ ok (c, db')
      → db' ≡ db
  unfolding repeat_tx
  repeat_tx-same db row job_id attempt_id digest h =
      let (_, h1) = if-err _ conflict _ h in
      let (_, h2) = if-err _ conflict _ h1 in
      let (v, _, e) = >>=-eq-ok (parse_or_null codec null row.result) _ h2 in state-eq _ _ db _ e

  complete_row-cases :
      (db : Db) (o : Option JobRow) (job_id attempt_id : String) (v : Value) (text : String)
      (now_ms : ℕ) {c : Completion Value} {db' : Db}
      → complete_row codec null db o job_id attempt_id v text now_ms ≡ ok (c, db')
      → (db' ≡ db) ⊎ Stops 1 db db'
  unfolding complete_row
  complete_row-cases db none job_id attempt_id v text now_ms h = cc
  complete_row-cases db (some row) job_id attempt_id v text now_ms {db' = db'} h =
      elim (if-cases (is_completed row.status) _ _ h) [
        | inl (_, again) ↦ inl (repeat_tx-same db row job_id attempt_id _ again)
        | inr (_, fresh) ↦
            let (_, h1) = if-err _ conflict _ fresh in
            let (_, h2) = if-err _ conflict _ h1 in
            let (written, w, e) =
              >>=-eq-ok (complete_writes db job_id attempt_id text (codec.hex_digest text) now_ms) _
                h2 in
            inr (
              subst (Stops 1 db) (sym (state-eq _ _ written db' e))
                (complete_writes-Stops db job_id attempt_id text _ now_ms w))
      ]

  -- A completion repeats an answer and writes nothing, or stops one job.
  pub complete_tx-cases :
      (db : Db) (job_id attempt_id : String) (v : Value) (now_ms : ℕ) {c : Completion Value}
      {db' : Db}
      → complete_tx codec null db job_id attempt_id v now_ms ≡ ok (c, db')
      → (db' ≡ db) ⊎ Stops 1 db db'
  unfolding complete_tx
  complete_tx-cases db job_id attempt_id v now_ms h =
      let (text, _, h1) = >>=-eq-ok (codec.to_text v) _ h in
      let (_, h2) = >>-ensure _ invalid_input _ h1 in
      complete_row-cases db (job_row db job_id) job_id attempt_id v text now_ms h2

fail_row-Stops :
    (db : Db) (o : Option JobRow) (job_id attempt_id error : String) (retry : Option ℕ) (now_ms : ℕ)
    {status : JobStatus} {db' : Db}
    → fail_row db o job_id attempt_id error retry now_ms ≡ ok (status, db')
    → Stops 1 db db'
unfolding fail_row
fail_row-Stops db none job_id attempt_id error retry now_ms h = cc
fail_row-Stops db (some row) job_id attempt_id error retry now_ms {db' = db'} h =
    let (_, h1) = if-err _ conflict _ h in
    let (_, h2) = if-err _ conflict _ h1 in
    let (written, w, e) = >>=-eq-ok (fail_writes db job_id attempt_id error retry now_ms) _ h2 in
    subst (Stops 1 db) (sym (state-eq _ _ written db' e))
      (fail_writes-Stops db job_id attempt_id error retry now_ms w)

pub fail_tx-Stops :
    (db : Db) (job_id attempt_id error : String) (retry : Option ℕ) (now_ms : ℕ)
    {status : JobStatus} {db' : Db}
    → fail_tx db job_id attempt_id error retry now_ms ≡ ok (status, db')
    → Stops 1 db db'
unfolding fail_tx
fail_tx-Stops db job_id attempt_id error retry now_ms h =
    let (_, _, h1) = >>=-eq-ok (validate_detail error) _ h in
    fail_row-Stops db (job_row db job_id) job_id attempt_id error retry now_ms h1

none_of : (mode : DesiredMode) (n : ℕ) → (not (is_running_mode mode) || ltb 0 n) ≡ false → n ≡ 0
none_of mode n h = ground arith

module _ {Value : Type 0} (codec : Codec Value) where
  claim_row-cases :
      (db : Db) (limit bound : ℕ) (o : Option JobRow) (worker_id attempt_id : String)
      (timestamp : ℕ) {c : Option (JobClaim Value)} {db' : Db}
      → claim_row codec db limit bound o worker_id attempt_id timestamp ≡ ok (c, db')
      → (db' ≡ db) ⊎ Starts db db'
  unfolding claim_row
  claim_row-cases db limit bound none worker_id attempt_id timestamp {db' = db'} h =
      inl (state-eq _ _ db db' h)
  claim_row-cases db limit bound (some row) worker_id attempt_id timestamp {db' = db'} h =
      let (_, _, h1) = >>=-eq-ok (validate_name row.id 128) _ h in
      let (_, _, h2) = >>=-eq-ok (validate_name row.kind 128) _ h1 in
      let (v, _, h3) =
        >>=-eq-ok (validate_claim_payload codec (substr limit row.payload) row.payload_digest bound)
          _ h2 in
      let (number, _, h4) = >>=-eq-ok (next_attempt_number row.attempt_count) _ h3 in
      elim (if-cases (not (count_where (is_claimable row.id) db.jobs == 1)) _ _ h4) [
        | inl (other, same) ↦ inl (state-eq _ _ db db' same)
        | inr (one, h5) ↦
            let (written, w, e) =
              >>=-eq-ok (claim_writes db row worker_id attempt_id timestamp number) _ h5 in
            inr (
              subst (Starts db) (sym (state-eq _ _ written db' e))
                (claim_writes-Starts db row worker_id attempt_id timestamp number (ground arith) w))
      ]

  -- A claim writes nothing, or starts one job where no attempt was unresolved.
  pub claim_tx-cases :
      (s : Store) (worker_id : String) (now_ms : ℕ) (attempt_id : String)
      {c : Option (JobClaim Value)} {db' : Db}
      → claim_tx codec s worker_id now_ms attempt_id ≡ ok (c, db')
      → (db' ≡ s.db) ⊎ ((unresolved_attempts s.db ≡ 0) × Starts s.db db')
  unfolding claim_tx
  claim_tx-cases s worker_id now_ms attempt_id {db' = db'} h =
      let (_, _, h1) = >>=-eq-ok (validate_name worker_id 128) _ h in
      let (limit, _, h2) = >>=-eq-ok (payload_read_limit s.max_payload_bytes) _ h1 in
      let (mode, _, h3) = >>=-eq-ok (desired_mode_from s.db) _ h2 in
      elim (if-cases (not (is_running_mode mode) || ltb 0 (unresolved_attempts s.db)) _ _ h3) [
        | inl (held, same) ↦ inl (state-eq _ _ s.db db' same)
        | inr (free, proceed) ↦
            let (timestamp, _, h4) = >>=-eq-ok (sqlite_timestamp now_ms) _ proceed in
            elim (claim_row-cases s.db limit s.max_payload_bytes _ worker_id attempt_id timestamp
              h4) [
                | inl same ↦ inl same
                | inr starts ↦ inr (none_of mode (unresolved_attempts s.db) free, starts)
              ]
      ]

  pub submit_tx-Submits :
      (s : Store) (id kind : String) (v : Value) (now_ms : ℕ) {db' : Db}
      → submit_tx codec s id kind v now_ms ≡ ok (tt, db')
      → Submits s.max_jobs s.db db'
  unfolding submit_tx
  submit_tx-Submits s id kind v now_ms {db' = db'} h =
      let (_, _, h1) = >>=-eq-ok (validate_name kind 128) _ h in
      let (encoded, _, h2) = >>=-eq-ok (codec.to_text v) _ h1 in
      let (_, h3) = if-err _ invalid_input _ h2 in
      let (written, w, e) =
        >>=-eq-ok (insert_job_tx s.db id kind encoded (codec.hex_digest encoded) s.max_jobs now_ms)
          _ h3 in
      subst (Submits s.max_jobs s.db) (sym (state-eq _ _ written db' e))
        (insert_job_tx-Submits s.db id kind encoded _ s.max_jobs now_ms w)
