-- ===== src/Storage/Worker/Exclusive.antt =====
-- What every history of calls keeps: one unresolved attempt and one open hand-off at most, and the
-- identifiers of hand-offs and of their attempts used once.
use mathlib.Core.Path.{subst}
use ascension_watchdog.Prelude.{
  ◌≤◌, ◌≡◌, refl, String, Bool, true, false, ◌||◌, List, [], ◌∷◌, ◌++◌, arith, inl, inr, ap, sym,
  ◌∙◌, str_eq, eq_iff,
}
use ascension_watchdog.Prelude.Tests.{Bool-cases}
use ascension_watchdog.Prelude.Lists.{
  length, count_where, count_where-append, count_where-or_zero, count_where-update_le,
  count_where-update_same,
}
use ascension_watchdog.Storage.Db.{Db, Store}
use ascension_watchdog.Storage.Jobs.Select.{running_jobs, running_attempts, unresolved_attempts}
use ascension_watchdog.Storage.Worker.Types.{WorkerHandoffState, HandoffRow}
use ascension_watchdog.Storage.Worker.Outside.{Outside}
use ascension_watchdog.Storage.Worker.Queries.{is_handoff}
use ascension_watchdog.Storage.Worker.Claim.{is_open, open_handoffs, collides}
use ascension_watchdog.Storage.Worker.Life.{
  Stage, reserved, sent, taken, refused, finished, delivered, Evidence, Step, dispatches, admits,
  finishes_sent, finishes_taken, delivers, stage_in, evidence_of, IsMove, HandoffChange, same,
  inserts, moves,
}
use ascension_watchdog.Storage.Worker.Kept.{Change, QueueChange, idle, stops, starts, submits, ends}
use ascension_watchdog.Storage.Worker.Cycle.{WorkerOp, worker_run, worker_run-keeps}

abbrev pub of_attempt : String → HandoffRow → Bool
of_attempt id row = str_eq row.tuple.attempt_id id

-- One deployment works on at most one job: the queue is settled, at most one hand-off is open, and
-- no two hand-offs share an identifier or an attempt.
pub record IsExclusive (s : Store) : Type 0 where
  pub single : unresolved_attempts s.db ≤ 1
  pub paired : running_jobs s.db ≡ running_attempts s.db
  pub within : length s.db.jobs ≤ s.max_jobs
  pub one_open : open_handoffs s.db ≤ 1
  pub ids : (id : String) → count_where (is_handoff id) s.db.worker_handoffs ≤ 1
  pub attempts : (id : String) → count_where (of_attempt id) s.db.worker_handoffs ≤ 1

abbrev QueueSettled : Store → Type 0
QueueSettled s =
    (unresolved_attempts s.db ≤ 1)
    × (running_jobs s.db ≡ running_attempts s.db)
    × (length s.db.jobs ≤ s.max_jobs)

settled :
    (s : Store) (db : Db) → IsExclusive s → QueueChange s db → QueueSettled (record s { db = db })
settled s db h (idle (jobs, attempts)) =
    (rw attempts h.single, rw (jobs, attempts) h.paired, rw jobs h.within)
settled s db h (stops freed t) = (
  omega (arith, h.single, t.unresolved),
  omega (arith, h.paired, t.jobs, t.attempts),
  omega (arith, h.within, t.size),
)
settled s db h (starts free mid t (jobs, attempts)) = (
  rw attempts (omega (arith, free, t.unresolved)),
  rw (jobs, attempts) (omega (arith, h.paired, t.jobs, t.attempts)),
  rw jobs (omega (arith, h.within, t.size)),
)
settled s db h (submits t) = (
  rw t.attempts h.single,
  rw t.attempts (omega (arith, h.paired, t.jobs)),
  omega (arith, t.room, t.more),
)
settled s db h (ends _ t) = (
  omega (arith, h.single, t.unresolved),
  omega (arith, h.paired, t.jobs, t.attempts),
  omega (arith, h.within, t.size),
)

-- Whether a stage is open.
abbrev open_stage : Stage → Bool
open_stage reserved = true
open_stage sent = true
open_stage taken = true
open_stage refused = false
open_stage (finished e) = false
open_stage (delivered e) = false

open_stage-stage_in :
    (st : WorkerHandoffState) (e : Evidence) → open_stage (stage_in st e) ≡ is_open st
open_stage-stage_in st e = ground arith

open_before : {a b : Stage} → Step a b → open_stage b ≡ true → open_stage a ≡ true
open_before dispatches h = refl
open_before admits h = refl
open_before (finishes_sent e) h = refl
open_before (finishes_taken e) h = refl
open_before (delivers e) h = h

pub move_open : (a b : HandoffRow) → IsMove a b → is_open b.state ≡ true → is_open a.state ≡ true
move_open a b m h =
    sym (open_stage-stage_in a.state (evidence_of a))
    ∙ open_before m.step (open_stage-stage_in b.state (evidence_of b) ∙ h)

-- A row whose key is new.
one_more :
    (key : HandoffRow → String) (id : String) (row : HandoffRow) (rows : List HandoffRow)
    → count_where (λ r. str_eq (key r) id) rows ≤ 1
    → count_where (λ r. str_eq (key r) (key row)) rows ≡ 0
    → count_where (λ r. str_eq (key r) id) (rows ++ row ∷ []) ≤ 1
one_more key id row rows one new =
    let total = count_where-append (λ r. str_eq (key r) id) rows (row ∷ []) in
    elim (Bool-cases (str_eq (key row) id)) [
      | inl e ↦
          let zero =
            subst (λ (k : String). count_where (λ r. str_eq (key r) k) rows ≡ 0)
              ((eq_iff (key row) id).0 e) new in
          ground (arith, total, zero)
      | inr e ↦ ground (arith, total, one, e)
    ]

module _ (row : HandoffRow) (rows : List HandoffRow)
    (new : count_where (collides row) rows ≡ 0) where
  pub new_keys :
      (count_where (is_handoff row.tuple.handoff_id) rows ≡ 0)
      × (count_where (of_attempt row.tuple.attempt_id) rows ≡ 0)
  new_keys =
      let (id, others) =
        count_where-or_zero (is_handoff row.tuple.handoff_id)
          (λ other.
            of_attempt row.tuple.attempt_id other
            || (str_eq other.tuple.episode_id row.tuple.episode_id
                || (str_eq other.tuple.run_id row.tuple.run_id
                    || str_eq other.tuple.trajectory_id row.tuple.trajectory_id)))
          rows new in
      let (attempt, _) =
        count_where-or_zero (of_attempt row.tuple.attempt_id)
          (λ other.
            str_eq other.tuple.episode_id row.tuple.episode_id
            || (str_eq other.tuple.run_id row.tuple.run_id
                || str_eq other.tuple.trajectory_id row.tuple.trajectory_id))
          rows others in
      (id, attempt)

abbrev HandoffsExclusive : Db → Type 0
HandoffsExclusive db =
    (open_handoffs db ≤ 1)
    × ((id : String) → count_where (is_handoff id) db.worker_handoffs ≤ 1)
    × ((id : String) → count_where (of_attempt id) db.worker_handoffs ≤ 1)

exclusive : (s : Store) (db : Db) → IsExclusive s → HandoffChange s.db db → HandoffsExclusive db
exclusive s db h (same e) = (rw e h.one_open, λ id. rw e (h.ids id), λ id. rw e (h.attempts id))
exclusive s db h (inserts i) =
    let (id_new, attempt_new) = new_keys i.row s.db.worker_handoffs i.new in
    (
      rw i.handoffs (
          let total = count_where-append (λ r. is_open r.state) s.db.worker_handoffs (i.row ∷ []) in
          ground (arith, total, i.none_open)),
      λ id.
          rw i.handoffs
            (one_more (λ r. r.tuple.handoff_id) id i.row s.db.worker_handoffs (h.ids id) id_new),
      λ id. rw i.handoffs (
          one_more (λ r. r.tuple.attempt_id) id i.row s.db.worker_handoffs (h.attempts id)
            attempt_new),
    )
exclusive s db h (moves m) = (
  rw m.handoffs (
      omega (
        arith,
        h.one_open,
        count_where-update_le m.test (λ r. is_open r.state) m.change
            (λ r t o. move_open r (m.change r) (m.moves r t) o) s.db.worker_handoffs,
      )),
  λ id. rw m.handoffs (
      omega (
        arith,
        h.ids id,
        count_where-update_same m.test (is_handoff id) m.change
            (λ r t. ap (λ u. str_eq u.handoff_id id) (m.moves r t).claim.tuple)
            s.db.worker_handoffs,
      )),
  λ id. rw m.handoffs (
      omega (
        arith,
        h.attempts id,
        count_where-update_same m.test (of_attempt id) m.change
            (λ r t. ap (λ u. str_eq u.attempt_id id) (m.moves r t).claim.tuple)
            s.db.worker_handoffs,
      )),
)

Change-IsExclusive :
    (s : Store) (db : Db) → IsExclusive s → Change s db → IsExclusive (record s { db = db })
Change-IsExclusive s db h change =
    let (single, paired, within) = settled s db h change.queue in
    let (one_open, ids, attempts) = exclusive s db h change.handoffs in
    record {
      single = single;
      paired = paired;
      within = within;
      one_open = one_open;
      ids = ids;
      attempts = attempts;
    }

module _ {Value Uuid : Type 0} (out : Outside Value Uuid) (null : Value) where
  -- From an exclusive store every history of calls of the hand-off and of the queue, whatever their
  -- answers, ends in an exclusive store: at most one attempt is unresolved and at most one hand-off
  -- is open, as many jobs run as attempts, the queue is in bounds, and no two hand-offs share an
  -- identifier or an attempt.
  pub worker_run-IsExclusive :
      (s : Store) (ops : List (WorkerOp Value))
      → IsExclusive s
      → IsExclusive (worker_run out null s ops)
  worker_run-IsExclusive = worker_run-keeps out null IsExclusive Change-IsExclusive
