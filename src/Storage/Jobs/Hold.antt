-- ===== src/Storage/Jobs/Hold.antt =====
-- After an interruption the queue is held: the attempts of unknown outcome stay unresolved, and no
-- later call of the queue starts a job.
use mathlib.Core.Path.{subst}
use ascension_watchdog.Prelude.{ℕ, ◌+◌, ◌≤◌, ◌≡◌, refl, String, List, [], ◌∷◌, arith, map, sym}
use ascension_watchdog.Prelude.Lists.{length, keep_where, length-keep_where}
use ascension_watchdog.Error.{ok, >>=-eq-ok}
use ascension_watchdog.Storage.Db.{JobRow, Db, Store, commit-ok}
use ascension_watchdog.Storage.Jobs.{Codec}
use ascension_watchdog.Storage.Jobs.Select.{is_running, running_jobs, unresolved_attempts}
use ascension_watchdog.Storage.Jobs.Quarantine.{
  quarantine_one, quarantine_all, running_ids, quarantine_tx, quarantine_interrupted_jobs,
}
use ascension_watchdog.Storage.Jobs.Counts.{quarantine_one-Stops}
use ascension_watchdog.Storage.Jobs.History.{Op, IsKept, execute_all, execute_all-keeps}

length-map : {A : Type 0} {B : Type 0} (f : A → B) (xs : List A) → length (map f xs) ≡ length xs
length-map f [] = refl
length-map f (x ∷ xs) = omega (arith, length-map f xs)

quarantine_all-counts :
    (db : Db) (ids : List String) (now_ms : ℕ) {db' : Db}
    → quarantine_all db ids now_ms ≡ ok db'
    → (running_jobs db' + length ids ≡ running_jobs db)
      × (unresolved_attempts db' ≡ unresolved_attempts db)
unfolding quarantine_all
quarantine_all-counts db [] now_ms {db' = db'} h =
    let same : db ≡ db' = cc h in
    subst
      (λ (d : Db).
        (running_jobs d + 0 ≡ running_jobs db) × (unresolved_attempts d ≡ unresolved_attempts db))
      same (omega arith, refl)
quarantine_all-counts db (id ∷ ids) now_ms h =
    let (db1, one, rest) = >>=-eq-ok (quarantine_one db id now_ms) _ h in
    let stops = quarantine_one-Stops db id now_ms one in
    let (jobs, unresolved) = quarantine_all-counts db1 ids now_ms rest in
    (omega (arith, jobs, stops.jobs), omega (arith, unresolved, stops.unresolved))

quarantine_tx-counts :
    (db : Db) (now_ms : ℕ) {n : ℕ} {db' : Db}
    → quarantine_tx db now_ms ≡ ok (n, db')
    → (n ≡ running_jobs db)
      × (running_jobs db' ≡ 0)
      × (unresolved_attempts db' ≡ unresolved_attempts db)
unfolding quarantine_tx
quarantine_tx-counts db now_ms {n = n} {db' = db'} h =
    let (written, all, e) = >>=-eq-ok (quarantine_all db (running_ids db) now_ms) _ h in
    let (jobs, unresolved) = quarantine_all-counts db (running_ids db) now_ms all in
    let long =
      length-map (λ (row : JobRow). row.id) (keep_where (λ row. is_running row.status) db.jobs) in
    let kept = length-keep_where (λ (row : JobRow). is_running row.status) db.jobs in
    let same : written ≡ db' = cc e in
    let counted : length (running_ids db) ≡ n = cc e in
    subst
      (λ (d : Db).
        (n ≡ running_jobs db)
        × (running_jobs d ≡ 0)
        × (unresolved_attempts d ≡ unresolved_attempts db))
      same (omega (arith, counted, long, kept), omega (arith, jobs, long, kept), unresolved)

-- A successful quarantine answers the number of running jobs, leaves none of them running, and
-- leaves as many attempts unresolved as before.
pub quarantine-counts :
    (s : Store) (now_ms : ℕ) {n : ℕ} {s' : Store}
    → quarantine_interrupted_jobs s now_ms ≡ (ok n, s')
    → (n ≡ running_jobs s.db)
      × (running_jobs s'.db ≡ 0)
      × (unresolved_attempts s'.db ≡ unresolved_attempts s.db)
unfolding quarantine_interrupted_jobs
quarantine-counts s now_ms {n = n} h =
    let (db, done, e) = commit-ok s _ h in
    subst
      (λ (t : Store).
        (n ≡ running_jobs s.db)
        × (running_jobs t.db ≡ 0)
        × (unresolved_attempts t.db ≡ unresolved_attempts s.db))
      (sym e) (quarantine_tx-counts s.db now_ms done)

-- No job runs, and an attempt is unresolved.
pub record IsHeld (s : Store) : Type 0 where
  pub idle : running_jobs s.db ≡ 0
  pub blocked : 1 ≤ unresolved_attempts s.db

IsHeld-kept : IsKept IsHeld
IsHeld-kept = record {
  same = λ s db h jobs attempts worker. record {
    idle = rw jobs h.idle;
    blocked = rw attempts h.blocked;
  };
  stops = λ s freed db h t. absurd (omega (arith, h.idle, t.jobs));
  starts = λ s db h none_left t. absurd (omega (arith, h.blocked, none_left));
  submits = λ s db h t. record {
    idle = omega (arith, t.jobs, h.idle);
    blocked = rw t.attempts h.blocked;
  };
}

module _ {Value : Type 0} (codec : Codec Value) (null : Value) where
  -- After a successful quarantine of a store with an unresolved attempt, no job runs at the end of
  -- any history of calls of the queue alone, and an attempt stays unresolved.
  quarantine-holds :
      (s : Store) (now_ms : ℕ) (ops : List (Op Value)) {n : ℕ} {s' : Store}
      → quarantine_interrupted_jobs s now_ms ≡ (ok n, s')
      → 1 ≤ unresolved_attempts s.db
      → IsHeld (execute_all codec null s' ops)
  quarantine-holds s now_ms ops h blocked =
      let (_, idle, unresolved) = quarantine-counts s now_ms h in
      execute_all-keeps codec null IsHeld IsHeld-kept _ ops
        (record { idle = idle; blocked = omega (arith, unresolved, blocked) })
