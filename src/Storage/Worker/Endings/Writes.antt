-- ===== src/Storage/Worker/Endings/Writes.antt =====
-- The writes of a completion (storage_worker_completion_terminal.rs).
use mathlib.Core.Path.{subst}
use ascension_watchdog.Prelude.{ℕ, ◌≡◌, String, true, ◌||◌, List, arith, ap, ◌∙◌}
use ascension_watchdog.Prelude.Tests.{◌==◌}
use ascension_watchdog.Prelude.Lists.{count_where, update_where}
use ascension_watchdog.Error.{ok, conflict, >>=-eq-ok, >>-ensure, ok-eq}
use ascension_watchdog.Storage.Db.{JobStatus, AttemptStatus, AuditRow, Db}
use ascension_watchdog.Storage.Metadata.{sqlite_timestamp}
use ascension_watchdog.Storage.Metadata.Ledger.{insert_audit_tx-only}
use ascension_watchdog.Storage.Jobs.Select.{job_row, attempt_row}
use ascension_watchdog.Storage.Worker.Types.{WorkerHandoffTuple, WorkerTerminalReceipt}
use ascension_watchdog.Storage.Worker.Dispatch.{is_handoff_in, update_handoff}
use ascension_watchdog.Storage.Worker.Complete.{
  is_executing, is_active_pair, is_quarantined_pair, is_job_in, is_attempt_in, finished_attempt,
  finished_job, finished_handoff, finish_rows, finish_writes, job_status_of, attempt_state_of,
}
use ascension_watchdog.Storage.Worker.Inversions.{update_handoff-inv}

-- The writes of a completion: one attempt, one job and one hand-off are updated.
pub record Finishes (db : Db) (tuple : WorkerHandoffTuple) (receipt : WorkerTerminalReceipt)
    (text compact_digest digest : String) (db' : Db) : Type 0 where
  pub job_status : JobStatus
  pub attempt_status : AttemptStatus
  pub pair :
      (is_active_pair job_status attempt_status || is_quarantined_pair job_status attempt_status)
      ≡ true
  pub now : ℕ
  pub one_attempt :
      (count_where (is_attempt_in tuple.attempt_id tuple.job_id attempt_status) db.attempts == 1)
      ≡ true
  pub one_job : (count_where (is_job_in tuple.job_id job_status) db.jobs == 1) ≡ true
  pub one_handoff :
      (count_where (is_handoff_in tuple.handoff_id is_executing) db.worker_handoffs == 1) ≡ true
  pub sequence : sqlite_timestamp receipt.checkpoint_sequence ≡ ok receipt.checkpoint_sequence
  pub rest : db' ≡ record db {
    attempts =
        update_where
          (is_attempt_in tuple.attempt_id tuple.job_id attempt_status)
          (finished_attempt receipt.status now)
          db.attempts;
    jobs =
        update_where
          (is_job_in tuple.job_id job_status)
          (finished_job receipt.status receipt.terminal_ref text compact_digest now)
          db.jobs;
    worker_handoffs =
        update_where
          (is_handoff_in tuple.handoff_id is_executing)
          (finished_handoff receipt receipt.checkpoint_sequence digest text now)
          db.worker_handoffs;
    audit = db'.audit;
  }

sqlite_timestamp-same : (n : ℕ) {m : ℕ} → sqlite_timestamp n ≡ ok m → m ≡ n
unfolding sqlite_timestamp
sqlite_timestamp-same n h = ground arith

-- The tables with the attempt and the job of a completion finished.
abbrev with_rows :
    Db
    → WorkerHandoffTuple
    → JobStatus
    → AttemptStatus
    → WorkerTerminalReceipt
    → String
    → String
    → ℕ
    → Db
with_rows db tuple job_status attempt_status receipt text digest now = record db {
  attempts =
      update_where (is_attempt_in tuple.attempt_id tuple.job_id attempt_status)
        (finished_attempt receipt.status now) db.attempts;
  jobs =
      update_where (is_job_in tuple.job_id job_status)
        (finished_job receipt.status receipt.terminal_ref text digest now) db.jobs;
}

-- The tables with the hand-off of a completion finished, and with an audit ledger.
abbrev with_handoff :
    Db → WorkerHandoffTuple → WorkerTerminalReceipt → String → String → ℕ → ℕ → List AuditRow → Db
with_handoff db tuple receipt text digest now sequence audit = record db {
  worker_handoffs =
      update_where (is_handoff_in tuple.handoff_id is_executing)
        (finished_handoff receipt sequence digest text now) db.worker_handoffs;
  audit = audit;
}

module _ (db : Db) (tuple : WorkerHandoffTuple) (receipt : WorkerTerminalReceipt)
    (text compact_digest digest : String) (now_ms : ℕ) {db' : Db} where
  pub finish_writes-inv :
      finish_writes db tuple receipt text compact_digest digest now_ms ≡ ok db'
      → Finishes db tuple receipt text compact_digest digest db'
  unfolding finish_writes finish_rows
  finish_writes-inv h =
      let (job_status, _, h1) = >>=-eq-ok (job_status_of (job_row db tuple.job_id)) _ h in
      let (attempt_status, _, h2) =
        >>=-eq-ok (attempt_state_of (attempt_row db tuple.attempt_id tuple.job_id)) _ h1 in
      let (pair, h3) =
        >>-ensure
          (is_active_pair job_status attempt_status
            || is_quarantined_pair job_status attempt_status)
          conflict _ h2 in
      let (now, _, h4) = >>=-eq-ok (sqlite_timestamp now_ms) _ h3 in
      let (ended, rows, h5) =
        >>=-eq-ok (finish_rows db tuple job_status attempt_status receipt text compact_digest now) _
          h4 in
      let (one_attempt, r1) = >>-ensure _ conflict _ rows in
      let (one_job, r2) = >>-ensure _ conflict _ r1 in
      let (sequence, q, h6) = >>=-eq-ok (sqlite_timestamp receipt.checkpoint_sequence) _ h5 in
      let (updated, u, a) =
        >>=-eq-ok
          (update_handoff ended (is_handoff_in tuple.handoff_id is_executing)
            (finished_handoff receipt sequence digest text now))
          _ h6 in
      let (one, is) =
        update_handoff-inv ended (is_handoff_in tuple.handoff_id is_executing)
          (finished_handoff receipt sequence digest text now) u in
      let at : sequence ≡ receipt.checkpoint_sequence =
        sqlite_timestamp-same receipt.checkpoint_sequence q in
      let is_ended = ok-eq r2 in
      record {
        job_status = job_status;
        attempt_status = attempt_status;
        pair = pair;
        now = now;
        one_attempt = one_attempt;
        one_job = one_job;
        one_handoff =
            subst
              (λ (d : Db).
                (count_where (is_handoff_in tuple.handoff_id is_executing) d.worker_handoffs == 1)
                ≡ true)
              is_ended one;
        sequence = q ∙ ap (λ n. ok n) at;
        rest =
            insert_audit_tx-only updated _ _ now_ms a
            ∙ ap (λ (d : Db). record d { audit = db'.audit }) is
            ∙ ap (λ (d : Db). with_handoff d tuple receipt text digest now sequence db'.audit)
                is_ended
            ∙ ap
                (λ (n : ℕ).
                  with_handoff
                    (with_rows db tuple job_status attempt_status receipt text compact_digest now)
                    tuple receipt text digest now n db'.audit)
                at;
      }
