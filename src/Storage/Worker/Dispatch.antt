-- ===== src/Storage/Worker/Dispatch.antt =====
-- crates/watchdog/src/storage_worker_completion_dispatch.rs: the one-way mark of a dispatch, and
-- the admission by the worker.
use ascension_watchdog.Prelude.{ℕ, Bool, true, false, ◌&&◌, String, some}
use ascension_watchdog.Prelude.Tests.{◌==◌, if◌then◌else◌}
use ascension_watchdog.Prelude.Lists.{count_where, update_where}
use ascension_watchdog.Error.{Result, ok, err, ensure, conflict, ◌>>=◌, ◌>>◌}
use ascension_watchdog.Storage.Db.{Db, Store, commit}
use ascension_watchdog.Storage.Metadata.{sqlite_timestamp, insert_audit_tx}
use ascension_watchdog.Storage.Worker.Types.{WorkerHandoffState, WorkerHandoffTuple, HandoffRow}
use ascension_watchdog.Storage.Worker.Outside.{Outside}
use ascension_watchdog.Storage.Worker.Validate.{required, validate_tuple}
use ascension_watchdog.Storage.Worker.Rows.{RawHandoff}
use ascension_watchdog.Storage.Worker.Queries.{
  WorkerHandoff, is_handoff, worker_handoff, require_handoff_tx, ensure_tuple_matches,
  validate_handoff_transition_time, validate_dispatch_control_tx,
  validate_current_worker_incarnation_tx,
}

abbrev pub is_prepared : WorkerHandoffState → Bool
is_prepared WorkerHandoffState.prepared = true
is_prepared _ = false

abbrev pub is_dispatched : WorkerHandoffState → Bool
is_dispatched WorkerHandoffState.may_have_been_dispatched = true
is_dispatched _ = false

-- `WHERE handoff_id=? AND state ..`
abbrev pub is_handoff_in : String → (WorkerHandoffState → Bool) → HandoffRow → Bool
is_handoff_in id test row = is_handoff id row && test row.state

-- An update of exactly one hand-off.
unfoldable pub update_handoff : Db → (HandoffRow → Bool) → (HandoffRow → HandoffRow) → Result Db
update_handoff db test change =
    if count_where test db.worker_handoffs == 1
    then ok (record db { worker_handoffs = update_where test change db.worker_handoffs })
    else err conflict

abbrev pub dispatched_handoff : ℕ → HandoffRow → HandoffRow
dispatched_handoff now row = record row {
  state = WorkerHandoffState.may_have_been_dispatched;
  dispatched_at_ms = some now;
  updated_at_ms = now;
}

abbrev pub admitted_handoff : ℕ → HandoffRow → HandoffRow
admitted_handoff now row = record row {
  state = WorkerHandoffState.admitted;
  admitted_at_ms = some now;
  updated_at_ms = now;
}

module _ {Value Uuid : Type 0} (out : Outside Value Uuid) where
  -- The hand-off of a tuple, loaded and checked.
  unfoldable pub current_handoff : Store → WorkerHandoffTuple → Result (RawHandoff Value)
  unfolding require_handoff_tx ensure_tuple_matches
  current_handoff s tuple = do
    current ← require_handoff_tx out s.db tuple s.max_payload_bytes
    ensure_tuple_matches out current tuple
    ok current

  unfoldable pub mark_dispatched_tx : Store → WorkerHandoffTuple → ℕ → Result (Unit {0} × Db)
  unfolding current_handoff update_handoff validate_handoff_transition_time
      validate_dispatch_control_tx
  mark_dispatched_tx s tuple now_ms = do
    validate_tuple out tuple
    current ← current_handoff s tuple
    ensure (is_prepared current.state) conflict
    validate_handoff_transition_time out current now_ms "dispatch"
    validate_dispatch_control_tx out s.db current
    now ← sqlite_timestamp now_ms
    updated ←
        update_handoff s.db (is_handoff_in tuple.handoff_id is_prepared) (dispatched_handoff now)
    written ←
        insert_audit_tx updated "worker_handoff_may_have_been_dispatched" tuple.handoff_id now_ms
    ok (tt, written)

  -- What an admission does in each state.
  unfoldable pub admit_current :
      Db → RawHandoff Value → WorkerHandoffState → String → ℕ → Result (Unit {0} × Db)
  unfolding update_handoff validate_handoff_transition_time
  admit_current db current WorkerHandoffState.admitted id now_ms = ok (tt, db)
  admit_current db current WorkerHandoffState.may_have_been_dispatched id now_ms = do
    validate_handoff_transition_time out current now_ms "admission"
    now ← sqlite_timestamp now_ms
    updated ← update_handoff db (is_handoff_in id is_dispatched) (admitted_handoff now)
    written ← insert_audit_tx updated "worker_handoff_admitted" id now_ms
    ok (tt, written)
  admit_current db current _ id now_ms = err conflict

  unfoldable pub mark_admitted_tx : Store → WorkerHandoffTuple → ℕ → Result (Unit {0} × Db)
  unfolding current_handoff admit_current validate_current_worker_incarnation_tx
  mark_admitted_tx s tuple now_ms = do
    validate_tuple out tuple
    current ← current_handoff s tuple
    validate_current_worker_incarnation_tx out s.db current
    admit_current s.db current current.state tuple.handoff_id now_ms

  -- The hand-off, read after the commit.
  abbrev pub then_read : String → Result (Unit {0}) × Store → Result (WorkerHandoff Value) × Store
  then_read id (err error, s) = (err error, s)
  then_read id (ok _, s) = (do found ← worker_handoff out s id; required found, s)

  unfoldable pub mark_worker_handoff_may_have_been_dispatched_at :
      Store → WorkerHandoffTuple → ℕ → Result (WorkerHandoff Value) × Store
  unfolding mark_dispatched_tx commit worker_handoff
  mark_worker_handoff_may_have_been_dispatched_at s tuple now_ms =
      then_read tuple.handoff_id (commit s (mark_dispatched_tx s tuple now_ms))

  unfoldable pub mark_worker_handoff_admitted_at :
      Store → WorkerHandoffTuple → ℕ → Result (WorkerHandoff Value) × Store
  unfolding mark_admitted_tx commit worker_handoff
  mark_worker_handoff_admitted_at s tuple now_ms =
      then_read tuple.handoff_id (commit s (mark_admitted_tx s tuple now_ms))
