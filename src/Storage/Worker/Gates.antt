-- ===== src/Storage/Worker/Gates.antt =====
-- Who may move a hand-off: a claim and a dispatch want the acknowledged, running control that they
-- name; a completion without a recovery witness wants the incarnation of the claim.
use mathlib.Core.Path.{subst}
use ascension_watchdog.Prelude.{
  ℕ, ◌≡◌, refl, Bool, true, false, ◌&&◌, some, arith, inl, inr, ap, sym, ◌∙◌, str_eq, eq_iff,
}
use ascension_watchdog.Prelude.Tests.{◌==◌}
use ascension_watchdog.Config.{DesiredMode}
use ascension_watchdog.Error.{WatchdogError, ok, ensure, conflict, >>=-eq-ok, >>-ensure}
use ascension_watchdog.Storage.Db.{Db, Store, commit-ok}
use ascension_watchdog.Storage.Metadata.{desired_mode_from, desired_mode}
use ascension_watchdog.Storage.Worker.Types.{
  WorkerControlMode, WorkerControlWitness, WorkerHandoffTuple, WorkerTerminalReceipt, ControlRow,
  HandoffRow,
}
use ascension_watchdog.Storage.Worker.Outside.{Outside}
use ascension_watchdog.Storage.Worker.Validate.{required}
use ascension_watchdog.Storage.Worker.Control.{
  same_mode, is_running_desired, require_running_desired, binding_from_tx, control_from_tx,
}
use ascension_watchdog.Storage.Worker.Rows.{RawHandoff}
use ascension_watchdog.Storage.Worker.Queries.{
  WorkerHandoff, handoff_row, binds, is_incarnation, validate_dispatch_control_tx,
  validate_current_worker_incarnation_tx,
}
use ascension_watchdog.Storage.Worker.Dispatch.{
  is_prepared, mark_worker_handoff_may_have_been_dispatched_at,
}
use ascension_watchdog.Storage.Worker.Complete.{original_incarnation, WorkerCompletion}
use ascension_watchdog.Storage.Worker.Life.{reserved, stage}
use ascension_watchdog.Storage.Worker.Inversions.{mark_dispatched_tx-inv}
use ascension_watchdog.Storage.Worker.Endings.Deliveries.{required-inv}
use ascension_watchdog.Storage.Worker.Controls.{control_from_tx-row}
use ascension_watchdog.Storage.Worker.Loaded.{Decodes, current_handoff-Loads}
use ascension_watchdog.Storage.Worker.Once.{then_read-ok}
use ascension_watchdog.Storage.Worker.Repeat.{complete_by, complete_by-Answers}

three_true : (a b c : Bool) → (a && b && c) ≡ true → (a ≡ true) × (b ≡ true) × (c ≡ true)
three_true a b c h = ground arith

five_true :
    (a b c d e : Bool)
    → (a && b && c && d && e) ≡ true
    → (a ≡ true) × (b ≡ true) × (c ≡ true) × (d ≡ true) × (e ≡ true)
five_true a b c d e h = ground arith

running_only :
    (m : WorkerControlMode)
    → same_mode m WorkerControlMode.running ≡ true
    → m ≡ WorkerControlMode.running
unfolding same_mode
running_only m h = ground arith

desired_running : (mode : DesiredMode) → is_running_desired mode ≡ true → mode ≡ DesiredMode.running
desired_running mode h = ground arith

ensured : (test : Bool) (e : WatchdogError) → ensure test e ≡ ok tt → test ≡ true
ensured true e h = refl
ensured false e h = cc h

prepared_stage : (row : HandoffRow) → is_prepared row.state ≡ true → stage row ≡ reserved
prepared_stage row h = ground arith

same_number : (a b : ℕ) → (a == b) ≡ true → a ≡ b
same_number a b h = ground arith

require_running-inv :
    (db : Db) → require_running_desired db ≡ ok tt → desired_mode_from db ≡ ok DesiredMode.running
unfolding require_running_desired
require_running-inv db h =
    let (mode, read, h1) = >>=-eq-ok (desired_mode_from db) _ h in
    read ∙ ap (λ m. ok m) (desired_running mode (ensured (is_running_desired mode) conflict h1))

-- The control names the boots and the scope of a row.
pub record IsIncarnation (control : WorkerControlWitness) (row : HandoffRow) : Type 0 where
  pub deployment : control.deployment_id ≡ row.tuple.deployment_id
  pub owner : control.worker_owner_id ≡ row.tuple.worker_owner_id
  pub profile : control.worker_profile_digest ≡ row.tuple.worker_profile_digest
  pub watchdog_boot : control.watchdog_boot_id ≡ row.watchdog_boot_id
  pub worker_boot : control.worker_boot_id ≡ row.worker_boot_id

module _ {Value Uuid : Type 0} (out : Outside Value Uuid) where
  IsIncarnation-inv :
      (control : WorkerControlWitness) (raw : RawHandoff Value) (row : HandoffRow)
      → is_incarnation out control raw ≡ true
      → Decodes out row raw
      → IsIncarnation control row
  IsIncarnation-inv control raw row h d =
      let (deployment, owner, profile, watchdog, worker) =
        five_true (str_eq control.deployment_id raw.tuple.deployment_id)
          (str_eq control.worker_owner_id raw.tuple.worker_owner_id)
          (str_eq control.worker_profile_digest raw.tuple.worker_profile_digest)
          (str_eq control.watchdog_boot_id raw.watchdog_boot_id)
          (str_eq control.worker_boot_id raw.worker_boot_id) h in
      record {
        deployment =
            (eq_iff control.deployment_id raw.tuple.deployment_id).0 deployment
            ∙ ap (λ (r : RawHandoff Value). r.tuple.deployment_id) d.is;
        owner =
            (eq_iff control.worker_owner_id raw.tuple.worker_owner_id).0 owner
            ∙ ap (λ (r : RawHandoff Value). r.tuple.worker_owner_id) d.is;
        profile =
            (eq_iff control.worker_profile_digest raw.tuple.worker_profile_digest).0 profile
            ∙ ap (λ (r : RawHandoff Value). r.tuple.worker_profile_digest) d.is;
        watchdog_boot =
            (eq_iff control.watchdog_boot_id raw.watchdog_boot_id).0 watchdog
            ∙ ap (λ (r : RawHandoff Value). r.watchdog_boot_id) d.is;
        worker_boot =
            (eq_iff control.worker_boot_id raw.worker_boot_id).0 worker
            ∙ ap (λ (r : RawHandoff Value). r.worker_boot_id) d.is;
      }

  -- The acknowledged control that a report of the original incarnation was checked against.
  incarnation_tx-inv :
      (db : Db) (raw : RawHandoff Value)
      → validate_current_worker_incarnation_tx out db raw ≡ ok tt
      → (control : ControlRow) × (db.worker_control ≡ some control)
        × (is_incarnation out control.control raw ≡ true)
  unfolding validate_current_worker_incarnation_tx
  incarnation_tx-inv db raw h =
      let (found, _, h1) = >>=-eq-ok (binding_from_tx db) _ h in
      let (binding, _, h2) = >>=-eq-ok (required found) _ h1 in
      let (_, h3) = >>-ensure (binds out binding raw) conflict _ h2 in
      let (acknowledged, read, h4) = >>=-eq-ok (control_from_tx out db) _ h3 in
      let (control, is, h5) = >>=-eq-ok (required acknowledged) _ h4 in
      let (row, at, same) =
        control_from_tx-row out db (read ∙ ap (λ x. ok x) (required-inv acknowledged is)) in
      (
        row,
        at,
        ap (λ (c : WorkerControlWitness). is_incarnation out c raw) (sym same)
            ∙ ensured (is_incarnation out control raw) conflict h5,
      )

  -- A fresh completion without a recovery witness is of the incarnation that claimed: the
  -- acknowledged control has the scope and the boots of the row of the hand-off.
  pub complete-IsIncarnation :
      (s : Store) (tuple : WorkerHandoffTuple) (receipt : WorkerTerminalReceipt) (now_ms : ℕ)
      {c : WorkerCompletion Value} {s' : Store}
      → complete_by out s tuple receipt original_incarnation now_ms ≡ (ok c, s')
      → c.already_completed ≡ false
      → (control : ControlRow) × (row : HandoffRow) × (s.db.worker_control ≡ some control)
        × (handoff_row s.db tuple.handoff_id ≡ some row)
        × IsIncarnation control.control row
  complete-IsIncarnation s tuple receipt now_ms h fresh =
      let a = complete_by-Answers out s tuple receipt original_incarnation now_ms h in
      let loads = current_handoff-Loads out s tuple a.completes.loaded in
      elim a.completes.ended [
        | inl (_, already, _, _) ↦ cc (sym fresh ∙ already)
        | inr (_, _, _, original, _) ↦
            let (control, at, same) = incarnation_tx-inv s.db a.completes.current original in
            (
              control,
              loads.row,
              at,
              loads.found,
              IsIncarnation-inv control.control a.completes.current loads.row same loads.decodes,
            )
      ]

  -- The test of a dispatch.
  abbrev admits : WorkerControlWitness → RawHandoff Value → Bool
  admits control raw =
      same_mode control.mode WorkerControlMode.running
      && is_incarnation out control raw
      && control.mode_sequence == raw.mode_sequence

  dispatch_control-inv :
      (db : Db) (raw : RawHandoff Value)
      → validate_dispatch_control_tx out db raw ≡ ok tt
      → (desired_mode_from db ≡ ok DesiredMode.running)
        × ((control : ControlRow) × (db.worker_control ≡ some control)
            × (control.control.mode ≡ WorkerControlMode.running)
            × (is_incarnation out control.control raw ≡ true)
            × ((control.control.mode_sequence == raw.mode_sequence) ≡ true))
  unfolding validate_dispatch_control_tx
  dispatch_control-inv db raw h =
      let (_, running, h0) = >>=-eq-ok (require_running_desired db) _ h in
      let (found, _, h1) = >>=-eq-ok (binding_from_tx db) _ h0 in
      let (binding, _, h2) = >>=-eq-ok (required found) _ h1 in
      let (_, h3) = >>-ensure (binds out binding raw) conflict _ h2 in
      let (acknowledged, read, h4) = >>=-eq-ok (control_from_tx out db) _ h3 in
      let (control, is, h5) = >>=-eq-ok (required acknowledged) _ h4 in
      let (row, at, same) =
        control_from_tx-row out db (read ∙ ap (λ x. ok x) (required-inv acknowledged is)) in
      let checked =
        ensured
          (same_mode row.control.mode WorkerControlMode.running
            && is_incarnation out row.control raw
            && row.control.mode_sequence == raw.mode_sequence)
          conflict
          (subst (λ (c : WorkerControlWitness). ensure (admits c raw) conflict ≡ ok tt) same h5) in
      let (mode, incarnation, sequence) =
        three_true (same_mode row.control.mode WorkerControlMode.running)
          (is_incarnation out row.control raw) (row.control.mode_sequence == raw.mode_sequence)
          checked in
      (
        require_running-inv db running,
        (row, at, running_only row.control.mode mode, incarnation, sequence),
      )

  -- A hand-off is sent only where the deployment is to run and the acknowledged control is running,
  -- with the scope, the boots and the sequence of the hand-off's own row.
  pub dispatch-gate :
      (s : Store) (tuple : WorkerHandoffTuple) (now_ms : ℕ) {handoff : WorkerHandoff Value}
      {s' : Store}
      → mark_worker_handoff_may_have_been_dispatched_at out s tuple now_ms ≡ (ok handoff, s')
      → (desired_mode s ≡ ok DesiredMode.running)
        × ((control : ControlRow) × (row : HandoffRow) × (s.db.worker_control ≡ some control)
            × (handoff_row s.db tuple.handoff_id ≡ some row)
            × (stage row ≡ reserved)
            × (control.control.mode ≡ WorkerControlMode.running)
            × IsIncarnation control.control row
            × (control.control.mode_sequence ≡ row.mode_sequence))
  unfolding mark_worker_handoff_may_have_been_dispatched_at desired_mode
  dispatch-gate s tuple now_ms h =
      let (committed, _) = then_read-ok out tuple.handoff_id _ h in
      let (_, done, _) = commit-ok s _ committed in
      let d = mark_dispatched_tx-inv out s tuple now_ms done in
      let loads = current_handoff-Loads out s tuple d.loaded in
      let (running, (control, at, mode, incarnation, sequence)) =
        dispatch_control-inv s.db d.current d.allowed in
      (
        running,
        (
          control,
          loads.row,
          at,
          loads.found,
          prepared_stage loads.row
              (sym (ap (λ (r : RawHandoff Value). is_prepared r.state) loads.decodes.is) ∙ d.was),
          mode,
          IsIncarnation-inv control.control d.current loads.row incarnation loads.decodes,
          same_number control.control.mode_sequence d.current.mode_sequence sequence
              ∙ ap (λ (r : RawHandoff Value). r.mode_sequence) loads.decodes.is,
        ),
      )
