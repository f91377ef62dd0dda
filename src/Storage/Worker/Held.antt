-- ===== src/Storage/Worker/Held.antt =====
-- After an interruption with no open hand-off the whole deployment is held.
use ascension_watchdog.Prelude.{ℕ, ◌≤◌, ◌≡◌, refl, List, arith, ap, sym, ◌∙◌}
use ascension_watchdog.Prelude.Lists.{count_where, count_where-update_le}
use ascension_watchdog.Error.{ok}
use ascension_watchdog.Storage.Db.{Db, Store}
use ascension_watchdog.Storage.Jobs.Select.{unresolved_attempts}
use ascension_watchdog.Storage.Jobs.Quarantine.{quarantine_interrupted_jobs}
use ascension_watchdog.Storage.Jobs.History.{quarantine, IsKept, execute, execute-keeps}
use ascension_watchdog.Storage.Jobs.Hold.{IsHeld, quarantine-counts}
use ascension_watchdog.Storage.Worker.Types.{HandoffRow}
use ascension_watchdog.Storage.Worker.Outside.{Outside}
use ascension_watchdog.Storage.Worker.Claim.{is_open, open_handoffs}
use ascension_watchdog.Storage.Worker.Life.{HandoffChange, same, inserts, moves}
use ascension_watchdog.Storage.Worker.Kept.{Change, QueueChange, idle, stops, starts, submits, ends}
use ascension_watchdog.Storage.Worker.Exclusive.{move_open}
use ascension_watchdog.Storage.Worker.Cycle.{WorkerOp, worker_run, worker_run-keeps}

-- No job runs, an attempt is unresolved, and no hand-off is open.
record IsClosed (s : Store) : Type 0 where
  held : IsHeld s
  none_open : open_handoffs s.db ≡ 0

held_still : (s : Store) (db : Db) → IsClosed s → QueueChange s db → IsHeld (record s { db = db })
held_still s db h (idle (jobs, attempts)) = record {
  idle = rw jobs h.held.idle;
  blocked = rw attempts h.held.blocked;
}
held_still s db h (stops freed t) = absurd (omega (arith, h.held.idle, t.jobs))
held_still s db h (starts free started t after) = absurd (omega (arith, h.held.blocked, free))
held_still s db h (submits t) = record {
  idle = omega (arith, t.jobs, h.held.idle);
  blocked = rw t.attempts h.held.blocked;
}
held_still s db h (ends some_open t) = absurd (omega (arith, some_open, h.none_open))

closed_still : (s : Store) (db : Db) → IsClosed s → HandoffChange s.db db → open_handoffs db ≡ 0
closed_still s db h (same e) = rw e h.none_open
closed_still s db h (inserts i) = absurd (omega (arith, i.free, h.held.blocked))
closed_still s db h (moves m) = rw m.handoffs (
    omega (
      arith,
      h.none_open,
      count_where-update_le m.test (λ r. is_open r.state) m.change
          (λ r t o. move_open r (m.change r) (m.moves r t) o) s.db.worker_handoffs,
    ))

Change-IsClosed : (s : Store) (db : Db) → IsClosed s → Change s db → IsClosed (record s { db = db })
Change-IsClosed s db h change = record {
  held = held_still s db h change.queue;
  none_open = closed_still s db h change.handoffs;
}

-- The calls of the queue leave the hand-offs as they are.
abbrev HasHandoffs : List HandoffRow → Store → Type 0
HasHandoffs rows s = s.db.worker_handoffs ≡ rows

HasHandoffs-IsKept : (rows : List HandoffRow) → IsKept (HasHandoffs rows)
HasHandoffs-IsKept rows = record {
  same = λ s db h jobs attempts worker. ap (λ p. p.2) worker ∙ h;
  stops = λ s freed db h t. ap (λ p. p.2) t.worker ∙ h;
  starts = λ s db h free t. ap (λ p. p.2) t.worker ∙ h;
  submits = λ s db h t. ap (λ p. p.2) t.worker ∙ h;
}

module _ {Value Uuid : Type 0} (out : Outside Value Uuid) (null : Value) where
  quarantine-handoffs :
      (s : Store) (now_ms : ℕ) {n : ℕ} {s' : Store}
      → quarantine_interrupted_jobs s now_ms ≡ (ok n, s')
      → s'.db.worker_handoffs ≡ s.db.worker_handoffs
  unfolding execute
  quarantine-handoffs s now_ms h =
      sym (ap (λ p. p.1.db.worker_handoffs) h)
      ∙ execute-keeps out.codec null (HasHandoffs s.db.worker_handoffs)
          (HasHandoffs-IsKept s.db.worker_handoffs) s (quarantine now_ms) refl

  -- After a successful quarantine of a store with an unresolved attempt and no open hand-off, no
  -- job runs at the end of any history of calls of the queue and of the hand-off, and an attempt
  -- stays unresolved.
  pub quarantine-IsHeld :
      (s : Store) (now_ms : ℕ) (ops : List (WorkerOp Value)) {n : ℕ} {s' : Store}
      → quarantine_interrupted_jobs s now_ms ≡ (ok n, s')
      → 1 ≤ unresolved_attempts s.db
      → open_handoffs s.db ≡ 0
      → IsHeld (worker_run out null s' ops)
  quarantine-IsHeld s now_ms ops {s' = s'} h blocked none_open =
      let (_, none_running, unresolved) = quarantine-counts s now_ms h in
      let closed : IsClosed s' = record {
        held = record { idle = none_running; blocked = omega (arith, unresolved, blocked) };
        none_open =
            ap (λ rows. count_where (λ r. is_open r.state) rows) (quarantine-handoffs s now_ms h)
            ∙ none_open;
      } in
      let still = worker_run-keeps out null IsClosed Change-IsClosed s' ops closed in still.held
