-- ===== src/Storage/Jobs/Counts.antt =====
-- What each transaction of the queue does to the numbers of running jobs, running attempts and
-- unresolved attempts.
use ascension_watchdog.Prelude.{
  ℕ, ◌+◌, ◌≤◌, ◌≡◌, refl, Bool, true, false, String, Option, none, some, List, [], ◌∷◌, arith, ◌∙◌,
  ◌++◌, inl, inr, ap,
}
use ascension_watchdog.Prelude.Tests.{leb, Bool-cases, ◌==◌}
use ascension_watchdog.Prelude.Lists.{
  length, count_where, update_where, count_where-append, length-append, length-update_where,
  count_where-update_drop, count_where-update_gain, count_where-update_same,
}
use ascension_watchdog.Error.{ok, conflict, >>=-eq-ok, >>-ensure}
use ascension_watchdog.Storage.Db.{JobRow, AttemptRow, Db, worker_tables, SameWorker}
use ascension_watchdog.Storage.Metadata.{sqlite_timestamp}
use ascension_watchdog.Storage.Metadata.Ledger.{insert_audit_tx-inv, insert_audit_tx-only}
use ascension_watchdog.Storage.Jobs.Select.{
  is_running, attempt_is_running, is_unresolved, running_jobs, running_attempts,
  unresolved_attempts,
}
use ascension_watchdog.Storage.Jobs.Submit.{submitted, insert_job_row, insert_job_tx}
use ascension_watchdog.Storage.Jobs.Claim.{
  is_claimable, claimed, claimed_attempt, claim_writes, insert_attempt_row,
}
use ascension_watchdog.Storage.Jobs.Complete.{
  is_active_attempt, is_running_job, completed_row, completed_job, complete_writes,
}
use ascension_watchdog.Storage.Jobs.Fail.{
  is_running_attempt, failed_attempt, failed_job, fail_target, fail_writes, optional_timestamp,
}
use ascension_watchdog.Storage.Jobs.Quarantine.{
  is_running_attempt_of, interrupted_attempt, interrupted_job, quarantine_one,
}

-- Two states with the same jobs and attempts have the same counts.
abbrev pub SameQueue : Db → Db → Type 0
SameQueue db db' = (db'.jobs ≡ db.jobs) × (db'.attempts ≡ db.attempts)

-- One job and one attempt stop running; `freed` unresolved attempts are gone.
pub record Stops (freed : ℕ) (db db' : Db) : Type 0 where
  pub jobs : running_jobs db' + 1 ≡ running_jobs db
  pub attempts : running_attempts db' + 1 ≡ running_attempts db
  pub unresolved : unresolved_attempts db' + freed ≡ unresolved_attempts db
  pub size : length db'.jobs ≡ length db.jobs
  pub worker : SameWorker db db'

-- One job and one attempt are updated, which ran before and do not after.
updates-Stops :
    (pj : JobRow → Bool) (fj : JobRow → JobRow) (pa : AttemptRow → Bool)
    (fa : AttemptRow → AttemptRow) (freed : ℕ) (db db' : Db)
    → ((row : JobRow) → pj row ≡ true → is_running row.status ≡ true)
    → ((row : JobRow) → pj row ≡ true → is_running (fj row).status ≡ false)
    → ((row : AttemptRow) → pa row ≡ true → attempt_is_running row.status ≡ true)
    → ((row : AttemptRow) → pa row ≡ true → attempt_is_running (fa row).status ≡ false)
    → (count_where (λ row. is_unresolved row.status) (update_where pa fa db.attempts) + freed
        ≡ unresolved_attempts db)
    → ((count_where pa db.attempts == 1) ≡ true)
    → ((count_where pj db.jobs == 1) ≡ true)
    → db'.jobs ≡ update_where pj fj db.jobs
    → db'.attempts ≡ update_where pa fa db.attempts
    → SameWorker db db'
    → Stops freed db db'
updates-Stops pj fj pa fa freed db db' jw ji aw ai u one_a one_j jobs attempts worker = record {
  jobs =
      rw jobs (
        ground (arith, count_where-update_drop pj (λ row. is_running row.status) fj jw ji db.jobs));
  attempts = rw attempts (
      ground (
        arith,
        count_where-update_drop pa (λ row. attempt_is_running row.status) fa aw ai db.attempts,
      ));
  unresolved = rw attempts u;
  size = rw jobs (length-update_where pj fj db.jobs);
  worker = worker;
}

-- The attempts that are updated were unresolved, and are resolved after.
frees_one :
    (pa : AttemptRow → Bool) (fa : AttemptRow → AttemptRow) (rows : List AttemptRow)
    → ((row : AttemptRow) → pa row ≡ true → attempt_is_running row.status ≡ true)
    → ((row : AttemptRow) → pa row ≡ true → is_unresolved (fa row).status ≡ false)
    → ((count_where pa rows == 1) ≡ true)
    → count_where (λ row. is_unresolved row.status) (update_where pa fa rows) + 1
      ≡ count_where (λ row. is_unresolved row.status) rows
frees_one pa fa rows aw ai one = ground (
  arith,
  count_where-update_drop pa (λ row. is_unresolved row.status) fa
      (λ row h. ground (arith, aw row h)) ai rows,
)

module _ (db : Db) (job_id attempt_id text digest : String) (now_ms : ℕ) {db' : Db} where
  pub complete_writes-Stops :
      complete_writes db job_id attempt_id text digest now_ms ≡ ok db' → Stops 1 db db'
  unfolding complete_writes
  complete_writes-Stops h =
      let (t, _, r) = >>=-eq-ok (sqlite_timestamp now_ms) _ h in
      let (one_attempt, r1) = >>-ensure _ conflict _ r in
      let (one_job, r2) = >>-ensure _ conflict _ r1 in
      let (_, _, jobs, attempts, _) = insert_audit_tx-inv _ _ _ now_ms r2 in
      updates-Stops (is_running_job job_id) (completed_job t text digest)
        (is_active_attempt attempt_id job_id) (completed_row t text) 1 db db'
        (λ row p. ground arith) (λ row p. refl) (λ row p. ground arith) (λ row p. refl)
        (frees_one (is_active_attempt attempt_id job_id) (completed_row t text) db.attempts
          (λ row p. ground arith) (λ row p. refl) one_attempt)
        one_attempt one_job jobs attempts (ap worker_tables (insert_audit_tx-only _ _ _ now_ms r2))

target_stops : (retry : Option ℕ) → is_running (fail_target retry) ≡ false
unfolding fail_target
target_stops none = refl
target_stops (some t) = refl

module _ (db : Db) (job_id attempt_id error : String) (retry : Option ℕ) (now_ms : ℕ)
    {db' : Db} where
  pub fail_writes-Stops :
      fail_writes db job_id attempt_id error retry now_ms ≡ ok db' → Stops 1 db db'
  unfolding fail_writes
  fail_writes-Stops h =
      let (t, _, r) = >>=-eq-ok (sqlite_timestamp now_ms) _ h in
      let (one_attempt, r1) = >>-ensure _ conflict _ r in
      let (retry', _, r2) = >>=-eq-ok (optional_timestamp retry) _ r1 in
      let (one_job, r3) = >>-ensure _ conflict _ r2 in
      let (_, _, jobs, attempts, _) = insert_audit_tx-inv _ _ _ now_ms r3 in
      updates-Stops (is_running_job job_id) (failed_job (fail_target retry) retry' error)
        (is_running_attempt attempt_id) (failed_attempt t error) 1 db db' (λ row p. ground arith)
        (λ row p. target_stops retry) (λ row p. ground arith) (λ row p. refl)
        (frees_one (is_running_attempt attempt_id) (failed_attempt t error) db.attempts
          (λ row p. ground arith) (λ row p. refl) one_attempt)
        one_attempt one_job jobs attempts (ap worker_tables (insert_audit_tx-only _ _ _ now_ms r3))

module _ (db : Db) (job_id : String) (now_ms : ℕ) {db' : Db} where
  pub quarantine_one-Stops : quarantine_one db job_id now_ms ≡ ok db' → Stops 0 db db'
  unfolding quarantine_one
  quarantine_one-Stops h =
      let (t, _, r) = >>=-eq-ok (sqlite_timestamp now_ms) _ h in
      let (one_attempt, r1) = >>-ensure _ conflict _ r in
      let (one_job, r2) = >>-ensure _ conflict _ r1 in
      let (_, _, jobs, attempts, _) = insert_audit_tx-inv _ _ _ now_ms r2 in
      updates-Stops (is_running_job job_id) interrupted_job (is_running_attempt_of job_id)
        (interrupted_attempt t) 0 db db' (λ row p. ground arith) (λ row p. refl)
        (λ row p. ground arith) (λ row p. refl)
        (omega (
          arith,
          count_where-update_same (is_running_attempt_of job_id) (λ row. is_unresolved row.status)
              (interrupted_attempt t) (λ row p. ground arith) db.attempts,
        ))
        one_attempt one_job jobs attempts (ap worker_tables (insert_audit_tx-only _ _ _ now_ms r2))

-- One job and one attempt more run.
pub record Starts (db db' : Db) : Type 0 where
  pub jobs : running_jobs db' ≡ running_jobs db + 1
  pub attempts : running_attempts db' ≡ running_attempts db + 1
  pub unresolved : unresolved_attempts db' ≡ unresolved_attempts db + 1
  pub size : length db'.jobs ≡ length db.jobs
  pub worker : SameWorker db db'

pub insert_attempt_row-inv :
    (db : Db) (row : AttemptRow) {db' : Db}
    → insert_attempt_row db row ≡ ok db'
    → (db'.jobs ≡ db.jobs) × (db'.attempts ≡ db.attempts ++ row ∷ []) × SameWorker db db'
unfolding insert_attempt_row
insert_attempt_row-inv db row h = ground arith

module _ (db : Db) (row : JobRow) (worker_id attempt_id : String) (timestamp number : ℕ)
    {db' : Db} where
  pub claim_writes-Starts :
      (count_where (is_claimable row.id) db.jobs == 1) ≡ true
      → claim_writes db row worker_id attempt_id timestamp number ≡ ok db'
      → Starts db db'
  unfolding claim_writes
  claim_writes-Starts one h =
      let attempt = claimed_attempt attempt_id row worker_id timestamp number in
      let update = claimed worker_id timestamp number in
      let (inserted, e, r) =
        >>=-eq-ok
          (insert_attempt_row
            (record db { jobs = update_where (is_claimable row.id) update db.jobs }) attempt)
          _ h in
      let (jobs, attempts, worker) = insert_attempt_row-inv _ attempt e in
      let (_, _, jobs', attempts', _) = insert_audit_tx-inv _ _ _ timestamp r in
      record {
        jobs =
            rw (jobs', jobs)
              (ground (
                arith,
                count_where-update_gain (is_claimable row.id) (λ r. is_running r.status) update
                    (λ r p. ground arith) (λ r p. refl) db.jobs,
              ));
        attempts =
            rw (attempts', attempts)
              (count_where-append (λ r. attempt_is_running r.status) db.attempts (attempt ∷ []));
        unresolved =
            rw (attempts', attempts)
              (count_where-append (λ r. is_unresolved r.status) db.attempts (attempt ∷ []));
        size = rw (jobs', jobs) (length-update_where (is_claimable row.id) update db.jobs);
        worker = ap worker_tables (insert_audit_tx-only _ _ _ timestamp r) ∙ worker;
      }

insert_job_row-inv :
    (db : Db) (row : JobRow) {db' : Db}
    → insert_job_row db row ≡ ok db'
    → (db'.jobs ≡ db.jobs ++ row ∷ []) × (db'.attempts ≡ db.attempts) × SameWorker db db'
unfolding insert_job_row
insert_job_row-inv db row h = ground arith

-- A submission leaves every count as it is, and adds one job below the bound.
pub record Submits (max_jobs : ℕ) (db db' : Db) : Type 0 where
  pub room : length db.jobs + 1 ≤ max_jobs
  pub more : length db'.jobs ≡ length db.jobs + 1
  pub jobs : running_jobs db' ≡ running_jobs db
  pub attempts : db'.attempts ≡ db.attempts
  pub worker : SameWorker db db'

module _ (db : Db) (id kind encoded digest : String) (max_jobs now_ms : ℕ) {db' : Db} where
  pub insert_job_tx-Submits :
      insert_job_tx db id kind encoded digest max_jobs now_ms ≡ ok db' → Submits max_jobs db db'
  unfolding insert_job_tx
  insert_job_tx-Submits h = elim (Bool-cases (leb max_jobs (length db.jobs))) [
    | inl full ↦ absurd (cc (rw full at h))
    | inr room ↦
        let (t, _, r) = >>=-eq-ok (sqlite_timestamp now_ms) _ (rw room at h) in
        let row = submitted id kind encoded digest t in
        let (inserted, e, r1) = >>=-eq-ok (insert_job_row db row) _ r in
        let (jobs, attempts, worker) = insert_job_row-inv db row e in
        let (_, _, jobs', attempts', _) = insert_audit_tx-inv _ _ _ now_ms r1 in
        record {
          room = ground arith;
          more = rw (jobs', jobs) (length-append db.jobs (row ∷ []));
          jobs =
              rw (jobs', jobs)
                (omega (arith, count_where-append (λ r. is_running r.status) db.jobs (row ∷ [])));
          attempts = attempts' ∙ attempts;
          worker = ap worker_tables (insert_audit_tx-only _ _ _ now_ms r1) ∙ worker;
        }
  ]
