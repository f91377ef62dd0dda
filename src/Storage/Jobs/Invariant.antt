-- ===== src/Storage/Jobs/Invariant.antt =====
-- What every history of queue operations keeps, errors included: one deployment runs at most one
-- job.
use ascension_watchdog.Prelude.{ℕ, ◌≤◌, ◌≡◌, List, arith}
use ascension_watchdog.Prelude.Lists.{length}
use ascension_watchdog.Storage.Db.{Db, Store, SameWorker}
use ascension_watchdog.Storage.Jobs.{Codec}
use ascension_watchdog.Storage.Jobs.Select.{running_jobs, running_attempts, unresolved_attempts}
use ascension_watchdog.Storage.Jobs.History.{Op, IsKept, execute_all, execute_all-keeps}
use ascension_watchdog.Storage.Jobs.Counts.{Stops, Starts, Submits}

-- At most one attempt is unresolved, as many jobs run as attempts, and the queue is within its
-- bound.
pub record IsSettled (s : Store) : Type 0 where
  pub single : unresolved_attempts s.db ≤ 1
  pub paired : running_jobs s.db ≡ running_attempts s.db
  pub within : length s.db.jobs ≤ s.max_jobs

Stops-IsSettled :
    (s : Store) (freed : ℕ) (db : Db)
    → IsSettled s
    → Stops freed s.db db
    → IsSettled (record s { db = db })
Stops-IsSettled s freed db h t = record {
  single = omega (arith, h.single, t.unresolved);
  paired = omega (arith, h.paired, t.jobs, t.attempts);
  within = omega (arith, h.within, t.size);
}

Starts-IsSettled :
    (s : Store) (db : Db)
    → IsSettled s
    → unresolved_attempts s.db ≡ 0
    → Starts s.db db
    → IsSettled (record s { db = db })
Starts-IsSettled s db h none_left t = record {
  single = omega (arith, none_left, t.unresolved);
  paired = omega (arith, h.paired, t.jobs, t.attempts);
  within = omega (arith, h.within, t.size);
}

Same-IsSettled :
    (s : Store) (db : Db)
    → IsSettled s
    → db.jobs ≡ s.db.jobs
    → db.attempts ≡ s.db.attempts
    → SameWorker s.db db
    → IsSettled (record s { db = db })
Same-IsSettled s db h jobs attempts worker = record {
  single = rw attempts h.single;
  paired = rw (jobs, attempts) h.paired;
  within = rw jobs h.within;
}

Submits-IsSettled :
    (s : Store) (db : Db)
    → IsSettled s
    → Submits s.max_jobs s.db db
    → IsSettled (record s { db = db })
Submits-IsSettled s db h t = record {
  single = rw t.attempts h.single;
  paired = rw (t.jobs, t.attempts) h.paired;
  within = omega (arith, t.room, t.more);
}

IsSettled-kept : IsKept IsSettled
IsSettled-kept = record {
  same = Same-IsSettled;
  stops = Stops-IsSettled;
  starts = Starts-IsSettled;
  submits = Submits-IsSettled;
}

module _ {Value : Type 0} (codec : Codec Value) (null : Value) where
  -- From a settled store every history of calls, whatever their answers, ends in a settled store:
  -- at most one attempt is unresolved, as many jobs run as attempts, and the queue is in bounds.
  pub execute_all-IsSettled :
      (s : Store) (ops : List (Op Value)) → IsSettled s → IsSettled (execute_all codec null s ops)
  execute_all-IsSettled = execute_all-keeps codec null IsSettled IsSettled-kept
