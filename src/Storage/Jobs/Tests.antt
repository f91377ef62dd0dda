-- ===== src/Storage/Jobs/Tests.antt =====
-- The queue at concrete inputs. Values are texts, printed and parsed as they are, and a text is its
-- own digest.
use ascension_watchdog.Prelude.{
  ℕ, ◌≤◌, ◌≡◌, ◌↔◌, refl, String, Bool, true, false, none, some, List, [], ◌∷◌, arith, inl,
}
use ascension_watchdog.Prelude.Text.{to_string}
use ascension_watchdog.Config.{DesiredMode}
use ascension_watchdog.Error.{ok, err, conflict}
use ascension_watchdog.Storage.Db.{JobStatus, AttemptStatus, JobRow, AttemptRow, Store, commit}
use ascension_watchdog.Storage.Metadata.{
  is_emergency_stop_audit_action, is_critical_audit_action, validate_name, validate_detail,
  sqlite_timestamp, sqlite_u32, insert_audit_tx, audit_limit, desired_mode_from, parse_mode,
  metadata_from_conn,
}
use ascension_watchdog.Storage.Jobs.{Codec, JobRecord, JobClaim, Completion, validate_claim_payload}
use ascension_watchdog.Storage.Jobs.Select.{
  oldest, latest, job_row, attempt_row, completed_attempt, unresolved_attempts, running_jobs,
  is_ready,
}
use ascension_watchdog.Storage.Jobs.Submit.{submit_job_at}
use ascension_watchdog.Storage.Jobs.Claim.{
  claim_next_job, claim_tx, claim_row, claim_writes, insert_attempt_row, next_attempt_number,
  payload_read_limit,
}
use ascension_watchdog.Storage.Jobs.Complete.{
  complete_job_at, complete_tx, complete_row, complete_writes, repeat_tx,
}
use ascension_watchdog.Storage.Jobs.Fail.{fail_job_at, fail_tx, fail_row, fail_writes, fail_target}
use ascension_watchdog.Storage.Jobs.Quarantine.{
  quarantine_interrupted_jobs, quarantine_tx, quarantine_all, quarantine_one,
}
use ascension_watchdog.Storage.Jobs.History.{Op, submit, claim, complete, execute_all}
use ascension_watchdog.Storage.Jobs.Invariant.{IsSettled, execute_all-IsSettled}
use ascension_watchdog.Storage.Jobs.Hold.{quarantine-counts}
use ascension_watchdog.Storage.Jobs.Oldest.{Takes, claim-next}
use ascension_watchdog.Storage.Jobs.Answers.{complete-conflict}
use ascension_watchdog.Storage.Jobs.Retry.{Answers, fail-retry}
use ascension_watchdog.Storage.Jobs.Stored.{fresh_record}

abbrev plain : Codec String
plain = record { to_text = λ v. ok v; from_text = λ t. ok t; hex_digest = λ t. t }

abbrev empty : Store
empty = record {
  db = record {
    metadata =
        record { key = "desired_mode"; value = "running" }
        ∷ record { key = "updated_at_ms"; value = "0" }
        ∷ [];
    audit = [];
    jobs = [];
    attempts = [];
    intents = [];
    restarts = [];
    components = [];
    worker_binding = none;
    worker_control = none;
    worker_handoffs = [];
  };
  max_jobs = 2;
  max_payload_bytes = 100;
  restart_clock_epoch = "e1";
}

abbrev submitted_store : Store
submitted_store = (submit_job_at plain empty "j1" "build" "p1" 10).1

abbrev submitted_job : JobRecord String
submitted_job = fresh_record plain "j1" "build" "p1" "p1" 10

-- The job in its two states: queued, and running in its first attempt.
abbrev queued_row : JobRow
queued_row = record {
  id = "j1";
  kind = "build";
  payload = "p1";
  payload_digest = "p1";
  status = JobStatus.queued;
  created_at_ms = 10;
  claimed_at_ms = none;
  completed_at_ms = none;
  attempt_count = 0;
  next_retry_at_ms = some 10;
  last_error = none;
  result = none;
  completion_digest = none;
  worker_id = none;
}

abbrev running_attempt : AttemptRow
running_attempt = record {
  id = "a1";
  job_id = "j1";
  sequence = 1;
  lineage = "j1:1";
  status = AttemptStatus.running;
  started_at_ms = 30;
  finished_at_ms = none;
  worker_id = some "w";
  outcome = none;
}

abbrev queued_store : Store
queued_store = record empty { db = record empty.db { jobs = queued_row ∷ [] } }

abbrev running_store : Store
running_store = record empty {
  db = record empty.db {
    jobs =
        record queued_row {
          status = JobStatus.running;
          claimed_at_ms = some 30;
          attempt_count = 1;
          worker_id = some "w";
        }
        ∷ [];
    attempts = running_attempt ∷ [];
  };
}

abbrev claimed_job : JobClaim String
claimed_job = record {
  job = record submitted_job {
    status = JobStatus.running;
    claimed_at_ms = some 30;
    attempt_count = 1;
    next_retry_at_ms = none;
    worker_id = some "w";
  };
  attempt_id = "a1";
  attempt_number = 1;
  lineage = "j1:1";
  claimed_by = "w";
}

claim-next_example :
    (desired_mode_from queued_store.db ≡ ok DesiredMode.running)
    × (unresolved_attempts queued_store.db ≡ 0)
    × ((row : JobRow) × Takes plain queued_store 30 claimed_job row)
unfolding claim_next_job claim_tx claim_row claim_writes insert_attempt_row next_attempt_number
    payload_read_limit desired_mode_from parse_mode metadata_from_conn validate_claim_payload oldest
    to_string commit validate_name validate_detail sqlite_timestamp sqlite_u32 insert_audit_tx
    audit_limit is_emergency_stop_audit_action is_critical_audit_action job_row attempt_row
claim-next_example =
    claim-next plain queued_store "w" 30 "a1" {c = claimed_job}
      {s' = (claim_next_job plain queued_store "w" 30 "a1").1} refl

abbrev completed_store : Store
completed_store = (complete_job_at plain "null" running_store "j1" "a1" "done" 40).1

abbrev answer : Bool → Completion String
answer repeated = record {
  job_id = "j1";
  attempt_id = "a1";
  result = "done";
  already_completed = repeated;
}

complete-conflict_example :
    complete_job_at plain "null" completed_store "j1" "a2" "done" 50
    ≡ (err conflict, completed_store)
unfolding complete_job_at complete_tx complete_row complete_writes repeat_tx completed_attempt
    latest commit validate_name validate_detail sqlite_timestamp sqlite_u32 insert_audit_tx
    audit_limit is_emergency_stop_audit_action is_critical_audit_action job_row attempt_row
complete-conflict_example =
    complete-conflict plain "null" running_store "j1" "a1" "a2" "done" "done" "done" 40 50
      {c = answer false} {s' = completed_store} refl refl refl refl (omega arith) (inl refl)

abbrev failed_store : Store
failed_store = (fail_job_at running_store "j1" "a1" "lost" (some 90) 40).1

fail-retry_example :
    (before row : JobRow) × Answers (some 90) JobStatus.queued
    × (job_row running_store.db "j1" ≡ some before)
    × (job_row failed_store.db "j1" ≡ some row)
    × (row.status ≡ JobStatus.queued)
    × (row.last_error ≡ some "lost")
    × (row.worker_id ≡ none)
    × (row.payload ≡ before.payload)
    × (row.attempt_count ≡ before.attempt_count)
    × ((t : ℕ) → (is_ready t row ≡ true) ↔ ((r : ℕ) × (some 90 ≡ some r) × (r ≤ t)))
unfolding fail_job_at fail_tx fail_row fail_writes fail_target commit validate_name validate_detail
    sqlite_timestamp sqlite_u32 insert_audit_tx audit_limit is_emergency_stop_audit_action
    is_critical_audit_action job_row attempt_row
fail-retry_example =
    fail-retry running_store "j1" "a1" "lost" (some 90) 40 {status = JobStatus.queued}
      {s' = failed_store} refl

abbrev interrupted_store : Store
interrupted_store = (quarantine_interrupted_jobs running_store 60).1

quarantine-counts_example :
    (1 ≡ running_jobs running_store.db)
    × (running_jobs interrupted_store.db ≡ 0)
    × (unresolved_attempts interrupted_store.db ≡ unresolved_attempts running_store.db)
unfolding quarantine_interrupted_jobs quarantine_tx quarantine_all quarantine_one commit
    validate_name validate_detail sqlite_timestamp sqlite_u32 insert_audit_tx audit_limit
    is_emergency_stop_audit_action is_critical_audit_action job_row attempt_row
quarantine-counts_example = quarantine-counts running_store 60 {n = 1} {s' = interrupted_store} refl

abbrev later_calls : List (Op String)
later_calls = submit "j2" "build" "p2" 70 ∷ claim "w" 80 "a2" ∷ complete "j1" "a1" "done" 90 ∷ []

empty-IsSettled : IsSettled empty
empty-IsSettled = record { single = omega arith; paired = refl; within = omega arith }

execute_all-IsSettled_example : IsSettled (execute_all plain "null" empty later_calls)
execute_all-IsSettled_example = execute_all-IsSettled plain "null" empty later_calls empty-IsSettled
