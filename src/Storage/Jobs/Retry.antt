-- ===== src/Storage/Jobs/Retry.antt =====
-- What a failure leaves of a job, and from when a claim may take it again.
use mathlib.Core.Path.{subst}
use ascension_watchdog.Prelude.{
  ℕ, ◌≤◌, ◌≡◌, ◌⊎◌, inl, inr, ◌↔◌, refl, String, Bool, true, false, Option, none, some, arith, ap,
  sym, not, str_eq, ◌∙◌,
}
use ascension_watchdog.Prelude.Lists.{update_where}
use ascension_watchdog.Prelude.Updates.{find_where-update, find_where-holds}
use ascension_watchdog.Error.{ok, conflict, >>=-eq-ok, >>-ensure, if-err}
use ascension_watchdog.Storage.Db.{JobStatus, JobRow, Db, Store, commit-ok}
use ascension_watchdog.Storage.Metadata.{sqlite_timestamp, validate_detail}
use ascension_watchdog.Storage.Metadata.Ledger.{insert_audit_tx-inv}
use ascension_watchdog.Storage.Jobs.Select.{is_ready, is_running, job_row}
use ascension_watchdog.Storage.Jobs.Complete.{is_running_job}
use ascension_watchdog.Storage.Jobs.Outcomes.{state-eq, answer-eq}
use ascension_watchdog.Storage.Jobs.Fail.{
  fail_target, optional_timestamp, failed_job, fail_writes, fail_row, fail_tx, fail_job_at,
}

optional_timestamp-eq :
    (retry : Option ℕ) {r : Option ℕ} → optional_timestamp retry ≡ ok r → r ≡ retry
unfolding sqlite_timestamp
optional_timestamp-eq none h = cc h
optional_timestamp-eq (some at) h = ground arith

failed_row :
    (db db' : Db) (job_id : String) (target : JobStatus) (retry retry' : Option ℕ) (error : String)
    (row : JobRow)
    → job_row db job_id ≡ some row
    → is_running row.status ≡ true
    → db'.jobs ≡ update_where (is_running_job job_id) (failed_job target retry' error) db.jobs
    → retry' ≡ retry
    → job_row db' job_id ≡ some (failed_job target retry error row)
unfolding job_row
failed_row db db' job_id target retry retry' error row found run jobs again =
    let is_it = find_where-holds (λ row. str_eq row.id job_id) db.jobs found in
    let runs : is_running_job job_id row ≡ true = rw (is_it, run) refl in
    rw (jobs, ← again)
      (find_where-update (λ row. str_eq row.id job_id) (is_running_job job_id)
        (failed_job target retry' error) (λ row. refl) db.jobs found runs)

fail_writes-job :
    (db : Db) (job_id attempt_id error : String) (retry : Option ℕ) (now_ms : ℕ) (row : JobRow)
    {db' : Db}
    → fail_writes db job_id attempt_id error retry now_ms ≡ ok db'
    → job_row db job_id ≡ some row
    → is_running row.status ≡ true
    → job_row db' job_id ≡ some (failed_job (fail_target retry) retry error row)
unfolding fail_writes
fail_writes-job db job_id attempt_id error retry now_ms row {db' = db'} h found run =
    let (t, _, r) = >>=-eq-ok (sqlite_timestamp now_ms) _ h in
    let (one_attempt, r1) = >>-ensure _ conflict _ r in
    let (retry', again, r2) = >>=-eq-ok (optional_timestamp retry) _ r1 in
    let (one_job, r3) = >>-ensure _ conflict _ r2 in
    let (_, _, jobs, _, _) = insert_audit_tx-inv _ _ _ now_ms r3 in
    failed_row db db' job_id (fail_target retry) retry retry' error row found run jobs
      (optional_timestamp-eq retry again)

of_not : {b : Bool} → not b ≡ false → b ≡ true
of_not {b} h = ground arith

fail_row-job :
    (db : Db) (o : Option JobRow) (job_id attempt_id error : String) (retry : Option ℕ) (now_ms : ℕ)
    {status : JobStatus} {db' : Db}
    → fail_row db o job_id attempt_id error retry now_ms ≡ ok (status, db')
    → job_row db job_id ≡ o
    → (row : JobRow) × (status ≡ fail_target retry)
      × (o ≡ some row)
      × (job_row db' job_id ≡ some (failed_job (fail_target retry) retry error row))
unfolding fail_row
fail_row-job db none job_id attempt_id error retry now_ms h found = cc h
fail_row-job db (some row) job_id attempt_id error retry now_ms {db' = db'} h found =
    let (run, h1) = if-err (not (is_running row.status)) conflict _ h in
    let (_, h2) = if-err _ conflict _ h1 in
    let (written, w, e) = >>=-eq-ok (fail_writes db job_id attempt_id error retry now_ms) _ h2 in
    (
      row,
      answer-eq _ _ written db' e,
      refl,
      subst (λ (d : Db). job_row d job_id ≡ some (failed_job (fail_target retry) retry error row))
          (sym (state-eq _ _ written db' e))
          (fail_writes-job db job_id attempt_id error retry now_ms row w found (of_not run)),
    )

-- Ready exactly from the retry time on, and never without one.
ready_from :
    (retry : Option ℕ) (error : String) (row : JobRow) (t : ℕ)
    → (is_ready t (failed_job (fail_target retry) retry error row) ≡ true)
      ↔ ((r : ℕ) × (retry ≡ some r) × (r ≤ t))
unfolding fail_target
ready_from none error row t = (λ h. cc h, λ (r, e, _). cc e)
ready_from (some r) error row t =
    (λ h. (r, refl, ground arith), λ (q, e, le). let same : r ≡ q = cc e in ground arith)

-- `quarantined` without a retry time, `queued` with one.
abbrev pub Answers : Option ℕ → JobStatus → Type 0
Answers retry status =
    ((retry ≡ none) × (status ≡ JobStatus.quarantined))
    ⊎ ((r : ℕ) × (retry ≡ some r) × (status ≡ JobStatus.queued))

fail_target-Answers :
    (retry : Option ℕ) {status : JobStatus} → status ≡ fail_target retry → Answers retry status
unfolding fail_target
fail_target-Answers none e = inl (refl, e)
fail_target-Answers (some r) e = inr (r, refl, e)

-- A successful failure of a job answers `quarantined` without a retry time and `queued` with one;
-- its row then has that status and error and no worker, keeps its payload and its attempts, and is
-- ready at exactly the times from the retry time on.
pub fail-retry :
    (s : Store) (job_id attempt_id error : String) (retry : Option ℕ) (now_ms : ℕ)
    {status : JobStatus} {s' : Store}
    → fail_job_at s job_id attempt_id error retry now_ms ≡ (ok status, s')
    → (before row : JobRow) × Answers retry status
      × (job_row s.db job_id ≡ some before)
      × (job_row s'.db job_id ≡ some row)
      × (row.status ≡ status)
      × (row.last_error ≡ some error)
      × (row.worker_id ≡ none)
      × (row.payload ≡ before.payload)
      × (row.attempt_count ≡ before.attempt_count)
      × ((t : ℕ) → (is_ready t row ≡ true) ↔ ((r : ℕ) × (retry ≡ some r) × (r ≤ t)))
unfolding fail_job_at fail_tx
fail-retry s job_id attempt_id error retry now_ms h =
    let (db, done, e) = commit-ok s _ h in
    let (_, _, h1) = >>=-eq-ok (validate_detail error) _ done in
    let (row, answer, found, job) =
      fail_row-job s.db (job_row s.db job_id) job_id attempt_id error retry now_ms h1 refl in
    (
      row,
      failed_job (fail_target retry) retry error row,
      fail_target-Answers retry answer,
      found,
      ap (λ (t : Store). job_row t.db job_id) e ∙ job,
      sym answer,
      refl,
      refl,
      refl,
      refl,
      ready_from retry error row,
    )
