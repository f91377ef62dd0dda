-- ===== src/Storage/Worker/Cycle.antt =====
-- Histories of calls of the hand-off and of the queue on one store.
use mathlib.Core.Path.{subst}
use ascension_watchdog.Prelude.{
  ℕ, ◌≡◌, refl, String, Bool, Option, none, some, List, [], ◌∷◌, inl, inr, sym,
}
use ascension_watchdog.Error.{Result, ok, err}
use ascension_watchdog.Storage.Db.{Db, Store, commit, commit-keeps}
use ascension_watchdog.Storage.Jobs.History.{Op, IsKept, execute, execute-keeps}
use ascension_watchdog.Storage.Worker.Types.{
  WorkerBinding, WorkerControlWitness, WorkerClaimWitness, WorkerHandoffTuple,
  WorkerTerminalReceipt, WorkerAcknowledgment,
}
use ascension_watchdog.Storage.Worker.Outside.{Outside}
use ascension_watchdog.Storage.Worker.Control.{configure_worker_binding_at, set_worker_control_at}
use ascension_watchdog.Storage.Worker.Claim.{
  DrawnIds, claim_next_worker_handoff, claim_handoff_tx, then_handoff,
}
use ascension_watchdog.Storage.Worker.Dispatch.{
  is_handoff_in, is_prepared, is_dispatched, dispatched_handoff, admitted_handoff,
  mark_worker_handoff_may_have_been_dispatched_at, mark_worker_handoff_admitted_at,
  mark_dispatched_tx, mark_admitted_tx, then_read,
}
use ascension_watchdog.Storage.Worker.Complete.{
  TerminalAuthority, complete_worker_handoff_with_authority_at, complete_handoff_tx,
  then_completion,
}
use ascension_watchdog.Storage.Worker.Acknowledge.{
  is_awaiting, acknowledged_handoff, acknowledge_worker_handoff_with_authority_at, acknowledge_tx,
}
use ascension_watchdog.Storage.Worker.Life.{dispatched-IsMove, admitted-IsMove, acknowledged-IsMove}
use ascension_watchdog.Storage.Worker.Inversions.{mark_dispatched_tx-inv, mark_admitted_tx-cases}
use ascension_watchdog.Storage.Worker.Endings.Completions.{complete_handoff_tx-Completes}
use ascension_watchdog.Storage.Worker.Endings.Deliveries.{acknowledge_tx-Acknowledges}
use ascension_watchdog.Storage.Worker.Claims.{claim_handoff_tx-cases}
use ascension_watchdog.Storage.Worker.Controls.{configure_tx-cases, set_control_tx-cases}
use ascension_watchdog.Storage.Worker.Kept.{
  Change, idle, stops, starts, submits, queue_only, unchanged, Updates-Change, Finishes-Change,
  Configures-Change, Controls-Change, Claims-Change,
}

-- A call; the UUIDs that it draws are given with it.
pub data WorkerOp (Value : Type 0) : Type 0 where
  configure : WorkerBinding → (now_ms : ℕ) → WorkerOp Value
  set_control : WorkerControlWitness → (now_ms : ℕ) → WorkerOp Value
  claim : WorkerClaimWitness → (now_ms : ℕ) → DrawnIds → WorkerOp Value
  dispatch : WorkerHandoffTuple → (now_ms : ℕ) → WorkerOp Value
  admit : WorkerHandoffTuple → (now_ms : ℕ) → WorkerOp Value
  complete :
      WorkerHandoffTuple → WorkerTerminalReceipt → TerminalAuthority → (now_ms : ℕ) → WorkerOp Value
  acknowledge :
      WorkerHandoffTuple → (digest : String) → TerminalAuthority → (now_ms : ℕ) → WorkerOp Value
  queue : Op Value → WorkerOp Value

module _ {Value Uuid : Type 0} (out : Outside Value Uuid) (null : Value) where
  -- The store after a call, whatever its answer.
  unfoldable pub worker_step : Store → WorkerOp Value → Store
  worker_step s (configure binding now_ms) = (configure_worker_binding_at s binding now_ms).1
  worker_step s (set_control control now_ms) = (set_worker_control_at out s control now_ms).1
  worker_step s (claim witness now_ms ids) = (claim_next_worker_handoff out s witness now_ms ids).1
  worker_step s (dispatch tuple now_ms) =
      (mark_worker_handoff_may_have_been_dispatched_at out s tuple now_ms).1
  worker_step s (admit tuple now_ms) = (mark_worker_handoff_admitted_at out s tuple now_ms).1
  worker_step s (complete tuple receipt authority now_ms) =
      (complete_worker_handoff_with_authority_at out s tuple receipt authority now_ms).1
  worker_step s (acknowledge tuple digest authority now_ms) =
      (acknowledge_worker_handoff_with_authority_at out s tuple digest authority now_ms).1
  worker_step s (queue op) = execute out.codec null s op

  unfoldable pub worker_run : Store → List (WorkerOp Value) → Store
  unfolding worker_step
  worker_run s [] = s
  worker_run s (op ∷ ops) = worker_run (worker_step s op) ops

module _ {Value Uuid : Type 0} (out : Outside Value Uuid) where
  then_handoff-store : (r : Result (Option String) × Store) → (then_handoff out r).1 ≡ r.1
  then_handoff-store (ok none, s) = refl
  then_handoff-store (ok (some id), s) = refl
  then_handoff-store (err e, s) = refl

  then_read-store : (id : String) (r : Result (Unit {0}) × Store) → (then_read out id r).1 ≡ r.1
  then_read-store id (ok _, s) = refl
  then_read-store id (err e, s) = refl

  then_completion-store :
      (id : String) (r : Result (String × Bool) × Store) → (then_completion out id r).1 ≡ r.1
  then_completion-store id (ok (digest, already), s) = refl
  then_completion-store id (err e, s) = refl

  pub dispatch-Change :
      (s : Store) (tuple : WorkerHandoffTuple) (now_ms : ℕ) (db : Db)
      → mark_dispatched_tx out s tuple now_ms ≡ ok (tt, db)
      → Change s db
  dispatch-Change s tuple now_ms db h =
      let d = mark_dispatched_tx-inv out s tuple now_ms h in
      Updates-Change s db (is_handoff_in tuple.handoff_id is_prepared) (dispatched_handoff d.now)
        (λ r t. dispatched-IsMove tuple.handoff_id r d.now t) d.writes

  admit-Change :
      (s : Store) (tuple : WorkerHandoffTuple) (now_ms : ℕ) (db : Db)
      → mark_admitted_tx out s tuple now_ms ≡ ok (tt, db)
      → Change s db
  admit-Change s tuple now_ms db h = elim (mark_admitted_tx-cases out s tuple now_ms h) [
    | inl e ↦ unchanged s db e
    | inr (now, u) ↦
        Updates-Change s db (is_handoff_in tuple.handoff_id is_dispatched) (admitted_handoff now)
          (λ r t. admitted-IsMove tuple.handoff_id r now t) u
  ]

  complete-Change :
      (s : Store) (tuple : WorkerHandoffTuple) (receipt : WorkerTerminalReceipt)
      (authority : TerminalAuthority) (now_ms : ℕ) {digest : String} {already : Bool} (db : Db)
      → complete_handoff_tx out s tuple receipt authority now_ms ≡ ok ((digest, already), db)
      → Change s db
  complete-Change s tuple receipt authority now_ms {digest = digest} db h =
      let c = complete_handoff_tx-Completes out s tuple receipt authority now_ms h in
      elim c.ended [
        | inl (_, _, e, _) ↦ unchanged s db e
        | inr (_, _, _, _, f) ↦ Finishes-Change s db tuple receipt c.text c.compact_digest digest f
      ]

  acknowledge-Change :
      (s : Store) (tuple : WorkerHandoffTuple) (digest : String) (authority : TerminalAuthority)
      (now_ms : ℕ) {answer : WorkerAcknowledgment} (db : Db)
      → acknowledge_tx out s tuple digest authority now_ms ≡ ok (answer, db)
      → Change s db
  acknowledge-Change s tuple digest authority now_ms db h =
      let a = acknowledge_tx-Acknowledges out s tuple digest authority now_ms h in
      elim a.delivered [
        | inl (_, _, e) ↦ unchanged s db e
        | inr (_, _, _, (now, u)) ↦
            Updates-Change s db (is_awaiting tuple.handoff_id) (acknowledged_handoff now)
              (λ r t. acknowledged-IsMove tuple.handoff_id r now t) u
      ]

module _ {Value Uuid : Type 0} (out : Outside Value Uuid) (null : Value) (P : Store → Type 0)
    (kept : (s : Store) (db : Db) → P s → Change s db → P (record s { db = db })) where
  queue-kept : IsKept P
  queue-kept = record {
    same =
        λ s db h jobs attempts worker. kept s db h (queue_only s db (idle (jobs, attempts)) worker);
    stops = λ s freed db h t. kept s db h (queue_only s db (stops freed t) t.worker);
    starts =
        λ s db h free t. kept s db h (queue_only s db (starts free db t (refl, refl)) t.worker);
    submits = λ s db h t. kept s db h (queue_only s db (submits t) t.worker);
  }

  -- Every call, whatever its answer, keeps such a property.
  pub worker_step-keeps : (s : Store) (op : WorkerOp Value) → P s → P (worker_step out null s op)
  unfolding worker_step configure_worker_binding_at set_worker_control_at claim_next_worker_handoff
      mark_worker_handoff_may_have_been_dispatched_at mark_worker_handoff_admitted_at
      complete_worker_handoff_with_authority_at acknowledge_worker_handoff_with_authority_at
  worker_step-keeps s (configure binding now_ms) h = commit-keeps P s _ h (λ a db e.
      kept s db h (elim (configure_tx-cases s.db binding now_ms e) [
        | inl same ↦ unchanged s db same
        | inr c ↦ Configures-Change s db binding c
      ]))
  worker_step-keeps s (set_control control now_ms) h = commit-keeps P s _ h (λ a db e.
      kept s db h (elim (set_control_tx-cases out s.db control now_ms e) [
        | inl same ↦ unchanged s db same
        | inr c ↦ Controls-Change s db control c
      ]))
  worker_step-keeps s (claim witness now_ms ids) h =
      subst P (sym (then_handoff-store out (commit s (claim_handoff_tx out s witness now_ms ids))))
        (commit-keeps P s _ h (λ a db e.
          kept s db h (elim (claim_handoff_tx-cases out s witness now_ms ids e) [
            | inl (_, same) ↦ unchanged s db same
            | inr (_, c) ↦ Claims-Change out s db witness now_ms ids c
          ])))
  worker_step-keeps s (dispatch tuple now_ms) h =
      subst P
        (sym
          (then_read-store out tuple.handoff_id (commit s (mark_dispatched_tx out s tuple now_ms))))
        (commit-keeps P s _ h (λ a db e. kept s db h (dispatch-Change out s tuple now_ms db e)))
  worker_step-keeps s (admit tuple now_ms) h =
      subst P
        (sym
          (then_read-store out tuple.handoff_id (commit s (mark_admitted_tx out s tuple now_ms))))
        (commit-keeps P s _ h (λ a db e. kept s db h (admit-Change out s tuple now_ms db e)))
  worker_step-keeps s (complete tuple receipt authority now_ms) h =
      subst P
        (sym (
          then_completion-store out tuple.handoff_id
            (commit s (complete_handoff_tx out s tuple receipt authority now_ms))))
        (commit-keeps P s _ h
          (λ a db e. kept s db h (complete-Change out s tuple receipt authority now_ms db e)))
  worker_step-keeps s (acknowledge tuple digest authority now_ms) h =
      commit-keeps P s _ h
        (λ a db e. kept s db h (acknowledge-Change out s tuple digest authority now_ms db e))
  worker_step-keeps s (queue op) h = execute-keeps out.codec null P queue-kept s op h

  pub worker_run-keeps :
      (s : Store) (ops : List (WorkerOp Value)) → P s → P (worker_run out null s ops)
  unfolding worker_run
  worker_run-keeps s [] h = h
  worker_run-keeps s (op ∷ ops) h =
      worker_run-keeps (worker_step out null s op) ops (worker_step-keeps s op h)
