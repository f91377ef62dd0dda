-- ===== src/Storage/Worker/Counts.antt =====
-- What a claim and a completion of a hand-off do to the queue: one job and one attempt start, or
-- one attempt is resolved with its job.
use ascension_watchdog.Prelude.{
  ℕ, ◌+◌, ◌≡◌, ◌⊎◌, refl, String, Bool, true, false, ◌||◌, List, arith, inl, inr, ap, sym, ◌∙◌,
}
use ascension_watchdog.Prelude.Tests.{◌==◌}
use ascension_watchdog.Prelude.Lists.{
  length, count_where, update_where, length-update_where, count_where-update_drop,
  count_where-update_same,
}
use ascension_watchdog.Storage.Db.{JobStatus, AttemptStatus, JobRow, AttemptRow, Db}
use ascension_watchdog.Storage.Jobs.Select.{
  is_running, attempt_is_running, is_unresolved, running_jobs, running_attempts,
  unresolved_attempts,
}
use ascension_watchdog.Storage.Worker.Types.{
  WorkerHandoffTuple, WorkerTerminalStatus, WorkerTerminalReceipt,
}
use ascension_watchdog.Storage.Worker.Complete.{
  is_active_pair, is_quarantined_pair, is_job_in, is_attempt_in, finished_attempt, finished_job,
}
use ascension_watchdog.Storage.Worker.Endings.Writes.{Finishes}

-- One unresolved attempt is resolved; its job ran with it, or neither ran.
pub record Ends (db db' : Db) : Type 0 where
  pub stopped : ℕ
  pub jobs : running_jobs db' + stopped ≡ running_jobs db
  pub attempts : running_attempts db' + stopped ≡ running_attempts db
  pub unresolved : unresolved_attempts db' + 1 ≡ unresolved_attempts db
  pub size : length db'.jobs ≡ length db.jobs

pair_cases :
    (j : JobStatus) (a : AttemptStatus)
    → (is_active_pair j a || is_quarantined_pair j a) ≡ true
    → ((j ≡ JobStatus.running) × (a ≡ AttemptStatus.running))
      ⊎ ((j ≡ JobStatus.quarantined) × (a ≡ AttemptStatus.unknown))
pair_cases j a h = ground arith

module _ (id : String) (status : WorkerTerminalStatus) (reference text digest : String)
    (now : ℕ) where
  stopped_job :
      (row : JobRow) → is_running (finished_job status reference text digest now row).status ≡ false
  stopped_job row = ground arith

module _ (status : WorkerTerminalStatus) (now : ℕ) (row : AttemptRow) where
  stopped_attempt : attempt_is_running (finished_attempt status now row).status ≡ false
  stopped_attempt = ground arith

  resolved_attempt : is_unresolved (finished_attempt status now row).status ≡ false
  resolved_attempt = ground arith

module _ (id job_id : String) (row : AttemptRow) where
  was_unresolved :
      (st : AttemptStatus)
      → is_unresolved st ≡ true
      → is_attempt_in id job_id st row ≡ true
      → is_unresolved row.status ≡ true
  was_unresolved st u h = ground arith

  was_running :
      is_attempt_in id job_id AttemptStatus.running row ≡ true
      → attempt_is_running row.status ≡ true
  was_running h = ground arith

  was_idle :
      is_attempt_in id job_id AttemptStatus.unknown row ≡ true
      → attempt_is_running row.status ≡ false
  was_idle h = ground arith

module _ (id : String) (row : JobRow) where
  job_ran : is_job_in id JobStatus.running row ≡ true → is_running row.status ≡ true
  job_ran h = ground arith

  job_idle : is_job_in id JobStatus.quarantined row ≡ true → is_running row.status ≡ false
  job_idle h = ground arith

length_after :
    (jobs : List JobRow) (p : JobRow → Bool) (f : JobRow → JobRow) {jobs' : List JobRow}
    → jobs' ≡ update_where p f jobs
    → length jobs' ≡ length jobs
length_after jobs p f e = rw e (length-update_where p f jobs)

module _ (db : Db) (tuple : WorkerHandoffTuple) (receipt : WorkerTerminalReceipt)
    (text compact_digest digest : String) {db' : Db} where
  Ends-by :
      (j : JobStatus) (a : AttemptStatus) (now k : ℕ)
      → is_unresolved a ≡ true
      → ((count_where (is_attempt_in tuple.attempt_id tuple.job_id a) db.attempts == 1) ≡ true)
      → db'.jobs
        ≡ update_where
            (is_job_in tuple.job_id j)
            (finished_job receipt.status receipt.terminal_ref text compact_digest now)
            db.jobs
      → db'.attempts
        ≡ update_where
            (is_attempt_in tuple.attempt_id tuple.job_id a)
            (finished_attempt receipt.status now)
            db.attempts
      → running_jobs db' + k ≡ running_jobs db
      → running_attempts db' + k ≡ running_attempts db
      → Ends db db'
  Ends-by j a now k unresolved one jobs attempts fewer_jobs fewer_attempts = record {
    stopped = k;
    jobs = fewer_jobs;
    attempts = fewer_attempts;
    unresolved = rw attempts (
        ground (
          arith,
          count_where-update_drop (is_attempt_in tuple.attempt_id tuple.job_id a)
              (λ row. is_unresolved row.status) (finished_attempt receipt.status now)
              (λ row h. was_unresolved tuple.attempt_id tuple.job_id row a unresolved h)
              (λ row h. resolved_attempt receipt.status now row) db.attempts,
        ));
    size =
        length_after db.jobs (is_job_in tuple.job_id j)
          (finished_job receipt.status receipt.terminal_ref text compact_digest now) jobs;
  }

  active-Ends :
      (now : ℕ)
      → ((count_where
              (is_attempt_in tuple.attempt_id tuple.job_id AttemptStatus.running)
              db.attempts
            == 1)
          ≡ true)
      → ((count_where (is_job_in tuple.job_id JobStatus.running) db.jobs == 1) ≡ true)
      → db'.jobs
        ≡ update_where
            (is_job_in tuple.job_id JobStatus.running)
            (finished_job receipt.status receipt.terminal_ref text compact_digest now)
            db.jobs
      → db'.attempts
        ≡ update_where
            (is_attempt_in tuple.attempt_id tuple.job_id AttemptStatus.running)
            (finished_attempt receipt.status now)
            db.attempts
      → Ends db db'
  active-Ends now one_attempt one_job jobs attempts =
      Ends-by JobStatus.running AttemptStatus.running now 1 refl one_attempt jobs attempts
        (rw jobs (
          ground (
            arith,
            count_where-update_drop (is_job_in tuple.job_id JobStatus.running)
                (λ row. is_running row.status)
                (finished_job receipt.status receipt.terminal_ref text compact_digest now)
                (λ row h. job_ran tuple.job_id row h)
                (λ row h.
                  stopped_job tuple.job_id receipt.status receipt.terminal_ref text compact_digest
                    now row)
                db.jobs,
          )))
        (rw attempts (
          ground (
            arith,
            count_where-update_drop
                (is_attempt_in tuple.attempt_id tuple.job_id AttemptStatus.running)
                (λ row. attempt_is_running row.status) (finished_attempt receipt.status now)
                (λ row h. was_running tuple.attempt_id tuple.job_id row h)
                (λ row h. stopped_attempt receipt.status now row) db.attempts,
          )))

  quarantined-Ends :
      (now : ℕ)
      → ((count_where
              (is_attempt_in tuple.attempt_id tuple.job_id AttemptStatus.unknown)
              db.attempts
            == 1)
          ≡ true)
      → db'.jobs
        ≡ update_where
            (is_job_in tuple.job_id JobStatus.quarantined)
            (finished_job receipt.status receipt.terminal_ref text compact_digest now)
            db.jobs
      → db'.attempts
        ≡ update_where
            (is_attempt_in tuple.attempt_id tuple.job_id AttemptStatus.unknown)
            (finished_attempt receipt.status now)
            db.attempts
      → Ends db db'
  quarantined-Ends now one_attempt jobs attempts =
      Ends-by JobStatus.quarantined AttemptStatus.unknown now 0 refl one_attempt jobs attempts
        (rw jobs (
          omega (
            arith,
            count_where-update_same (is_job_in tuple.job_id JobStatus.quarantined)
                (λ row. is_running row.status)
                (finished_job receipt.status receipt.terminal_ref text compact_digest now)
                (λ row h.
                  stopped_job tuple.job_id receipt.status receipt.terminal_ref text compact_digest
                    now row
                  ∙ sym (job_idle tuple.job_id row h))
                db.jobs,
          )))
        (rw attempts (
          omega (
            arith,
            count_where-update_same
                (is_attempt_in tuple.attempt_id tuple.job_id AttemptStatus.unknown)
                (λ row. attempt_is_running row.status) (finished_attempt receipt.status now)
                (λ row h.
                  stopped_attempt receipt.status now row
                  ∙ sym (was_idle tuple.attempt_id tuple.job_id row h))
                db.attempts,
          )))

  pub Finishes-Ends : Finishes db tuple receipt text compact_digest digest db' → Ends db db'
  Finishes-Ends f =
      let jobs = ap (λ (d : Db). d.jobs) f.rest in
      let attempts = ap (λ (d : Db). d.attempts) f.rest in
      elim (pair_cases f.job_status f.attempt_status f.pair) [
        | inl (j, a) ↦
            active-Ends f.now (rw a at f.one_attempt) (rw j at f.one_job) (rw j at jobs)
              (rw a at attempts)
        | inr (j, a) ↦
            quarantined-Ends f.now (rw a at f.one_attempt) (rw j at jobs) (rw a at attempts)
      ]
