-- ===== src/Storage/Worker/Once.antt =====
-- A dispatch is marked once: after it, through every history of calls, the mark is refused.
use mathlib.Core.Path.{subst}
use ascension_watchdog.Prelude.{
  ℕ, ◌≡◌, refl, String, Bool, true, false, some, List, arith, ap, sym, ◌∙◌,
}
use ascension_watchdog.Prelude.Updates.{find_where-update, find_where-holds}
use ascension_watchdog.Error.{WatchdogError, Result, ok, err, >>=-eq-ok}
use ascension_watchdog.Storage.Db.{Db, Store, commit, commit-ok}
use ascension_watchdog.Storage.Worker.Types.{WorkerHandoffState, WorkerHandoffTuple, HandoffRow}
use ascension_watchdog.Storage.Worker.Outside.{Outside}
use ascension_watchdog.Storage.Worker.Queries.{
  WorkerHandoff, is_handoff, handoff_row, worker_handoff,
}
use ascension_watchdog.Storage.Worker.Dispatch.{
  is_prepared, is_handoff_in, dispatched_handoff, mark_dispatched_tx, then_read,
  mark_worker_handoff_may_have_been_dispatched_at,
}
use ascension_watchdog.Storage.Worker.Life.{
  Stage, reserved, sent, Evidence, Step, dispatches, admits, finishes_sent, finishes_taken,
  delivers, Course, stays, goes, stage, stage_in, evidence_of,
}
use ascension_watchdog.Storage.Worker.Inversions.{Dispatches, mark_dispatched_tx-inv}
use ascension_watchdog.Storage.Worker.Endings.Deliveries.{required-inv}
use ascension_watchdog.Storage.Worker.Lives.{Line, worker_run-Line}
use ascension_watchdog.Storage.Worker.Loaded.{current_handoff-Loads}
use ascension_watchdog.Storage.Worker.Cycle.{WorkerOp, worker_run}

abbrev pub is_reserved : Stage → Bool
is_reserved reserved = true
is_reserved _ = false

is_reserved-stage_in :
    (st : WorkerHandoffState) (e : Evidence) → is_reserved (stage_in st e) ≡ is_prepared st
is_reserved-stage_in st e = ground arith

step_leaves : {a b : Stage} → Step a b → is_reserved b ≡ false
step_leaves dispatches = refl
step_leaves admits = refl
step_leaves (finishes_sent e) = refl
step_leaves (finishes_taken e) = refl
step_leaves (delivers e) = refl

Course-leaves : {a b : Stage} → Course a b → is_reserved a ≡ false → is_reserved b ≡ false
Course-leaves stays h = h
Course-leaves (goes p step) h = step_leaves step

-- A row that is sent is not prepared at the end of its line.
sent_stays : (a b : HandoffRow) → Line a b → stage a ≡ sent → is_prepared b.state ≡ false
sent_stays a b line is =
    sym (is_reserved-stage_in b.state (evidence_of b)) ∙ Course-leaves line.path (ap is_reserved is)

module _ {Value Uuid : Type 0} (out : Outside Value Uuid) where
  pub then_read-ok :
      (id : String) (r : Result (Unit {0}) × Store) {handoff : WorkerHandoff Value} {s : Store}
      → then_read out id r ≡ (ok handoff, s)
      → (r ≡ (ok tt, s)) × (worker_handoff out s id ≡ ok (some handoff))
  then_read-ok id (err e, s') h = cc (ap (λ p. p.0) h)
  then_read-ok id (ok tt, s') {handoff = handoff} {s = s} h =
      let same : s' ≡ s = ap (λ p. p.1) h in
      let (found, read, e) = >>=-eq-ok (worker_handoff out s' id) _ (ap (λ p. p.0) h) in
      (
        ap (λ t. (ok tt, t)) same,
        subst (λ t. worker_handoff out t id ≡ ok (some handoff)) same
            (read ∙ ap (λ x. ok x) (required-inv found e)),
      )

  -- The row of a hand-off that was dispatched.
  Dispatches-row :
      (s : Store) (tuple : WorkerHandoffTuple) {db : Db}
      → Dispatches out s tuple db
      → (row : HandoffRow) × (handoff_row db tuple.handoff_id ≡ some row) × (stage row ≡ sent)
  Dispatches-row s tuple {db = db} d =
      let loads = current_handoff-Loads out s tuple d.loaded in
      let row = loads.row in
      let here = find_where-holds (is_handoff tuple.handoff_id) s.db.worker_handoffs loads.found in
      let was : is_prepared row.state ≡ true =
        sym (ap (λ r. is_prepared r.state) loads.decodes.is) ∙ d.was in
      (
        dispatched_handoff d.now row,
        ap (λ (x : Db). handoff_row x tuple.handoff_id) d.writes.rest
            ∙ find_where-update (is_handoff tuple.handoff_id)
                (is_handoff_in tuple.handoff_id is_prepared) (dispatched_handoff d.now) (λ x. refl)
                s.db.worker_handoffs loads.found (rw (here, was) refl),
        refl,
      )

  abbrev mark : Store → WorkerHandoffTuple → ℕ → Result (WorkerHandoff Value) × Store
  mark = mark_worker_handoff_may_have_been_dispatched_at out

  -- A mark that finds its hand-off past preparation.
  mark-refused :
      (s : Store) (tuple : WorkerHandoffTuple) (now_ms : ℕ) {row : HandoffRow}
      → handoff_row s.db tuple.handoff_id ≡ some row
      → is_prepared row.state ≡ false
      → (e : WatchdogError) × (mark s tuple now_ms ≡ (err e, s))
  unfolding mark_worker_handoff_may_have_been_dispatched_at commit
  mark-refused s tuple now_ms {row = row} found past =
      go (mark_dispatched_tx out s tuple now_ms) refl
    where
      go :
          (r : Result (Unit {0} × Db))
          → mark_dispatched_tx out s tuple now_ms ≡ r
          → (e : WatchdogError) × (then_read out tuple.handoff_id (commit s r) ≡ (err e, s))
      go (err e) h = (e, refl)
      go (ok (tt, db)) h =
          let d = mark_dispatched_tx-inv out s tuple now_ms h in
          let loads = current_handoff-Loads out s tuple d.loaded in
          let same : loads.row ≡ row = cc (sym loads.found ∙ found) in
          let was : is_prepared row.state ≡ true =
            sym (ap (λ (r : HandoffRow). is_prepared r.state) same)
            ∙ sym (ap (λ r. is_prepared r.state) loads.decodes.is)
            ∙ d.was in
          cc (sym was ∙ past)

  -- After a successful dispatch mark, at the end of every history of calls a dispatch mark of the
  -- same hand-off is an error that changes nothing: a hand-off is sent at most once.
  pub dispatch-once :
      (null : Value) (s : Store) (tuple : WorkerHandoffTuple) (now_ms : ℕ)
      (ops : List (WorkerOp Value)) (again_ms : ℕ) {handoff : WorkerHandoff Value} {s' : Store}
      → mark s tuple now_ms ≡ (ok handoff, s')
      → (e : WatchdogError) × (mark (worker_run out null s' ops) tuple again_ms
          ≡ (err e, worker_run out null s' ops))
  unfolding mark_worker_handoff_may_have_been_dispatched_at
  dispatch-once null s tuple now_ms ops again_ms {s' = s'} h =
      let (committed, _) = then_read-ok tuple.handoff_id _ h in
      let (db, done, is) = commit-ok s _ committed in
      let (row, found, at) =
        Dispatches-row s tuple (mark_dispatched_tx-inv out s tuple now_ms done) in
      let here : handoff_row s'.db tuple.handoff_id ≡ some row =
        ap (λ (t : Store). handoff_row t.db tuple.handoff_id) is ∙ found in
      let (last, later, line) = worker_run-Line out null s' ops tuple.handoff_id here in
      mark-refused (worker_run out null s' ops) tuple again_ms later (sent_stays row last line at)
