-- ===== src/Storage/Components/Restarts.antt =====
-- The durable restart budget: what a recorded restart adds, and that a new controller instance
-- resets nothing.
use mathlib.Core.Path.{subst}
use text.Mathlib.TextPositions.{eq_refl}
use ascension_watchdog.Prelude.{
  ℕ, ◌+◌, ◌-◌, ◌≤◌, ◌≡◌, refl, String, true, not, List, [], ◌∷◌, ◌++◌, arith, ap, sym, ◌∙◌,
}
use ascension_watchdog.Prelude.Lists.{
  count_where, keep_where, All, count_where-append, count_where-keep_where, count_where_mono,
}
use ascension_watchdog.Error.{Result, ok, err, >>=-eq-ok}
use ascension_watchdog.Storage.Db.{RestartRow, Db, Store, commit}
use ascension_watchdog.Storage.Metadata.{validate_name, sqlite_timestamp, insert_audit_tx}
use ascension_watchdog.Storage.Metadata.Ledger.{insert_audit_tx-only}
use ascension_watchdog.Storage.Jobs.Outcomes.{state-eq, answer-eq}
use ascension_watchdog.Storage.Components.{
  is_counted, is_of_epoch, is_expired, counted, restart_total, restart_count_with_elapsed,
  observed_at, record_restart_tx, narrowed, record_restart_with_elapsed,
}

abbrev restart_of : String → String → ℕ → ℕ → RestartRow
restart_of component epoch now elapsed = record {
  component_id = component;
  occurred_at_ms = now;
  clock_epoch = epoch;
  clock_elapsed_ms = elapsed;
}

-- The rows after a restart.
abbrev recorded_rows : Db → String → String → ℕ → ℕ → ℕ → List RestartRow
recorded_rows db component epoch now cutoff elapsed =
    keep_where (λ row. not (is_expired component epoch cutoff row)) db.restarts
    ++ restart_of component epoch now elapsed ∷ []

total-eq : (n : ℕ) {m : ℕ} → restart_total n ≡ ok m → m ≡ n
unfolding restart_total
total-eq n h = ground arith

stamp-eq : (n : ℕ) {m : ℕ} → sqlite_timestamp n ≡ ok m → m ≡ n
unfolding sqlite_timestamp
stamp-eq n h = ground arith

-- What the transaction of a restart wrote and answered.
record Recorded (component epoch : String) (elapsed_ms window_ms : ℕ) (db db' : Db) (n : ℕ)
    : Type 0 where
  now : ℕ
  restarts :
      db'.restarts
      ≡ recorded_rows db component epoch now
          (observed_at db component epoch elapsed_ms - window_ms)
          (observed_at db component epoch elapsed_ms)
  answer : n ≡ counted db' component epoch (observed_at db component epoch elapsed_ms - window_ms)

record_restart_tx-Recorded :
    (db : Db) (epoch component : String) (now_ms elapsed_ms window_ms : ℕ) {n : ℕ} {db' : Db}
    → record_restart_tx db epoch component now_ms elapsed_ms window_ms ≡ ok (n, db')
    → Recorded component epoch elapsed_ms window_ms db db' n
unfolding record_restart_tx
record_restart_tx-Recorded db epoch component now_ms elapsed_ms window_ms {n = n} {db' = db'} h =
    let observed = observed_at db component epoch elapsed_ms in
    let (_, _, h1) = >>=-eq-ok (validate_name component 128) _ h in
    let (cutoff, c, h2) = >>=-eq-ok (sqlite_timestamp (observed - window_ms)) _ h1 in
    let (now, _, h3) = >>=-eq-ok (sqlite_timestamp now_ms) _ h2 in
    let (elapsed, t, h4) = >>=-eq-ok (sqlite_timestamp observed) _ h3 in
    let (written, audited, e) =
      >>=-eq-ok (insert_audit_tx _ "component_restart_recorded" component now_ms) _ h4 in
    let rows =
      ap (λ (d : Db). d.restarts)
        (state-eq _ _ written db' e ∙ insert_audit_tx-only _ _ _ now_ms audited) in
    let cut = stamp-eq (observed - window_ms) c in
    record {
      now = now;
      restarts =
          rows
          ∙ ap (λ k. recorded_rows db component epoch now k elapsed) cut
          ∙ ap (λ k. recorded_rows db component epoch now (observed - window_ms) k)
              (stamp-eq observed t);
      answer =
          answer-eq _ _ written db' e
          ∙ ap (λ d. counted d component epoch cutoff) (sym (state-eq _ _ written db' e))
          ∙ ap (λ k. counted db' component epoch k) cut;
    }

-- A row that counts at a later window is not deleted at an earlier one.
not_expired :
    (component epoch : String) (early late : ℕ) (row : RestartRow)
    → early ≤ late
    → is_counted component epoch late row ≡ true
    → not (is_expired component epoch early row) ≡ true
not_expired component epoch early late row le h = ground (arith, le)

counted_new :
    (component epoch : String) (now elapsed cutoff : ℕ)
    → cutoff ≤ elapsed
    → is_counted component epoch cutoff (restart_of component epoch now elapsed) ≡ true
counted_new component epoch now elapsed cutoff le =
    rw (eq_refl component, eq_refl epoch) (ground (arith, le))

counted-Recorded :
    (component epoch : String) (elapsed_ms window_ms : ℕ) (db db' : Db) (n cutoff : ℕ)
    → Recorded component epoch elapsed_ms window_ms db db' n
    → observed_at db component epoch elapsed_ms - window_ms ≤ cutoff
    → cutoff ≤ observed_at db component epoch elapsed_ms
    → counted db' component epoch cutoff ≡ counted db component epoch cutoff + 1
counted-Recorded component epoch elapsed_ms window_ms db db' n cutoff r low high =
    let observed = observed_at db component epoch elapsed_ms in
    let kept =
      count_where-keep_where (is_counted component epoch cutoff)
        (λ row. not (is_expired component epoch (observed - window_ms) row))
        (λ row c. not_expired component epoch (observed - window_ms) cutoff row low c)
        db.restarts in
    let total =
      count_where-append (is_counted component epoch cutoff)
        (keep_where (λ row. not (is_expired component epoch (observed - window_ms) row))
          db.restarts)
        (restart_of component epoch r.now observed ∷ []) in
    let one = counted_new component epoch r.now observed cutoff high in
    rw r.restarts (omega (arith, rw one at total, kept))

record-cases :
    (s : Store) (component : String) (elapsed_ms window_ms t : ℕ) (r : Result (ℕ × Db)) {n : ℕ}
    {s' : Store}
    → ((m : ℕ) (db : Db)
        → r ≡ ok (m, db)
        → Recorded component s.restart_clock_epoch elapsed_ms window_ms s.db db m)
    → narrowed (commit s r) ≡ (ok n, s')
    → observed_at s.db component s.restart_clock_epoch elapsed_ms ≤ t
    → t ≤ observed_at s.db component s.restart_clock_epoch elapsed_ms + window_ms
    → (n
        ≡ counted s.db component s.restart_clock_epoch
            (observed_at s.db component s.restart_clock_epoch elapsed_ms - window_ms)
          + 1)
      × (counted s'.db component s.restart_clock_epoch (t - window_ms)
          ≡ counted s.db component s.restart_clock_epoch (t - window_ms) + 1)
unfolding commit
record-cases s component elapsed_ms window_ms t (err e) each h low high = cc h
record-cases s component elapsed_ms window_ms t (ok (m, db)) {n = n} {s' = s'} each h low high =
    let r = each m db refl in
    let epoch = s.restart_clock_epoch in
    let observed = observed_at s.db component epoch elapsed_ms in
    let s1 : Store = record s { db = db } in
    let is : s1 ≡ s' = ap (λ p. p.1) h in
    let n_is = total-eq m (ap (λ p. p.0) h) in
    (
      n_is
          ∙ r.answer
          ∙ counted-Recorded component epoch elapsed_ms window_ms s.db db m (observed - window_ms) r
              (omega arith) (omega arith),
      subst
          (λ (u : Store).
            counted u.db component epoch (t - window_ms)
            ≡ counted s.db component epoch (t - window_ms) + 1)
          is
          (counted-Recorded component epoch elapsed_ms window_ms s.db db m (t - window_ms) r
            (omega (arith, low)) (omega (arith, high))),
    )

-- A recorded restart is answered with the earlier restarts of the window and itself; and at every
-- later time until the window has passed since, the window holds exactly one restart more than it
-- would without it.
pub record_restart-adds :
    (s : Store) (component : String) (now_ms elapsed_ms window_ms t : ℕ) {n : ℕ} {s' : Store}
    → record_restart_with_elapsed s component now_ms elapsed_ms window_ms ≡ (ok n, s')
    → observed_at s.db component s.restart_clock_epoch elapsed_ms ≤ t
    → t ≤ observed_at s.db component s.restart_clock_epoch elapsed_ms + window_ms
    → (n
        ≡ counted s.db component s.restart_clock_epoch
            (observed_at s.db component s.restart_clock_epoch elapsed_ms - window_ms)
          + 1)
      × (counted s'.db component s.restart_clock_epoch (t - window_ms)
          ≡ counted s.db component s.restart_clock_epoch (t - window_ms) + 1)
unfolding record_restart_with_elapsed
record_restart-adds s component now_ms elapsed_ms window_ms t h low high =
    record-cases s component elapsed_ms window_ms t _
      (λ m db e.
        record_restart_tx-Recorded s.db s.restart_clock_epoch component now_ms elapsed_ms window_ms
          e)
      h low high

foreign_counted :
    (component epoch fresh : String) (k k' : ℕ) (rows : List RestartRow)
    → count_where (is_of_epoch component fresh) rows ≡ 0
    → All
        (λ row. is_counted component epoch k row ≡ true → is_counted component fresh k' row ≡ true)
        rows
foreign_counted component epoch fresh k k' [] h = tt
foreign_counted component epoch fresh k k' (row ∷ rows) h =
    (λ c. ground arith, foreign_counted component epoch fresh k k' rows (ground arith))

-- A new controller instance, whose clock epoch has no row of the component yet, counts at least
-- the restarts that its predecessor counted, whatever the times and the windows of the two counts.
pub restart_count-survives :
    (s : Store) (component fresh : String) (elapsed_ms window_ms elapsed_ms' window_ms' : ℕ)
    {n m : ℕ}
    → count_where (is_of_epoch component fresh) s.db.restarts ≡ 0
    → restart_count_with_elapsed s component elapsed_ms window_ms ≡ ok n
    → restart_count_with_elapsed
        (record s { restart_clock_epoch = fresh })
        component
        elapsed_ms'
        window_ms'
      ≡ ok m
    → n ≤ m
unfolding restart_count_with_elapsed
restart_count-survives s component fresh elapsed_ms window_ms elapsed_ms' window_ms' none_yet h h' =
    let (_, _, a) = >>=-eq-ok (validate_name component 128) _ h in
    let (_, _, a') = >>=-eq-ok (validate_name component 128) _ h' in
    let (k, _, b) = >>=-eq-ok (sqlite_timestamp (elapsed_ms - window_ms)) _ a in
    let (k', _, b') = >>=-eq-ok (sqlite_timestamp (elapsed_ms' - window_ms')) _ a' in
    let le =
      count_where_mono (is_counted component s.restart_clock_epoch k)
        (is_counted component fresh k') s.db.restarts
        (foreign_counted component s.restart_clock_epoch fresh k k' s.db.restarts none_yet) in
    omega (arith, total-eq _ b, total-eq _ b', le)
