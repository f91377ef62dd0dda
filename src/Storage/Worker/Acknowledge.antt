-- ===== src/Storage/Worker/Acknowledge.antt =====
-- crates/watchdog/src/storage_worker_completion_ack.rs: the durable acknowledgment of a terminal
-- hand-off. Its `AcknowledgmentAuthority` is the `TerminalAuthority` of a completion.
use ascension_watchdog.Prelude.{ℕ, Bool, true, false, ◌&&◌, String, Option, none, some, str_eq}
use ascension_watchdog.Prelude.Tests.{if◌then◌else◌}
use ascension_watchdog.Error.{Result, ok, err, ensure, conflict, sqlite, ◌>>=◌, ◌>>◌}
use ascension_watchdog.Storage.Db.{Db, Store, commit}
use ascension_watchdog.Storage.Metadata.{sqlite_timestamp, insert_audit_tx}
use ascension_watchdog.Storage.Worker.Types.{
  WorkerHandoffState, WorkerHandoffTuple, WorkerControlWitness, WorkerAcknowledgment, HandoffRow,
}
use ascension_watchdog.Storage.Worker.Outside.{Outside}
use ascension_watchdog.Storage.Worker.Validate.{required, validate_tuple, validate_digest_value}
use ascension_watchdog.Storage.Worker.Rows.{RawHandoff}
use ascension_watchdog.Storage.Worker.Queries.{
  is_handoff, handoff_row, validate_handoff_transition_time,
}
use ascension_watchdog.Storage.Worker.Dispatch.{update_handoff, current_handoff}
use ascension_watchdog.Storage.Worker.Complete.{
  TerminalAuthority, original_incarnation, current_recovery, check_recovery, check_original,
}

abbrev pub is_acknowledged : WorkerHandoffState → Bool
is_acknowledged WorkerHandoffState.acknowledged = true
is_acknowledged _ = false

-- `state IN ('completed','failed')`
abbrev pub is_finished : WorkerHandoffState → Bool
is_finished WorkerHandoffState.completed = true
is_finished WorkerHandoffState.failed = true
is_finished _ = false

-- `WHERE handoff_id=? AND state IN ('completed','failed') AND ack_intent=1`
abbrev pub is_awaiting : String → HandoffRow → Bool
is_awaiting id row = is_handoff id row && is_finished row.state && row.ack_intent

abbrev pub acknowledged_handoff : ℕ → HandoffRow → HandoffRow
acknowledged_handoff now row = record row {
  state = WorkerHandoffState.acknowledged;
  acknowledged_at_ms = some now;
  updated_at_ms = now;
}

abbrev pub intent_of : Option HandoffRow → Result Bool
intent_of none = err sqlite
intent_of (some row) = ok row.ack_intent

unfoldable pub current_ack_intent : Db → String → Result Bool
current_ack_intent db handoff_id = intent_of (handoff_row db handoff_id)

abbrev pub acknowledgment : WorkerHandoffTuple → String → Bool → WorkerAcknowledgment
acknowledgment tuple digest already = record {
  handoff_id = tuple.handoff_id;
  terminal_digest = digest;
  already_acknowledged = already;
}

-- The intent is read only in a finished state.
abbrev pub is_awaiting_now : Bool → Result Bool → Result Bool
is_awaiting_now true intent = intent
is_awaiting_now false intent = ok false

module _ {Value Uuid : Type 0} (out : Outside Value Uuid) where
  unfoldable pub acknowledge_current :
      Db
      → RawHandoff Value
      → WorkerHandoffTuple
      → String
      → TerminalAuthority
      → ℕ
      → Result (WorkerAcknowledgment × Db)
  unfolding current_ack_intent update_handoff
  acknowledge_current db current tuple digest authority now_ms =
      if is_acknowledged current.state then ok (acknowledgment tuple digest true, db) else do
        awaiting ←
            is_awaiting_now (is_finished current.state) (current_ack_intent db tuple.handoff_id)
        ensure awaiting conflict
        check_original out db current authority
        validate_handoff_transition_time out current now_ms "acknowledgment"
        now ← sqlite_timestamp now_ms
        updated ← update_handoff db (is_awaiting tuple.handoff_id) (acknowledged_handoff now)
        written ← insert_audit_tx updated "worker_handoff_acknowledged" tuple.handoff_id now_ms
        ok (acknowledgment tuple digest false, written)

  unfoldable pub acknowledge_tx :
      Store
      → WorkerHandoffTuple
      → String
      → TerminalAuthority
      → ℕ
      → Result (WorkerAcknowledgment × Db)
  unfolding acknowledge_current current_handoff
  acknowledge_tx s tuple digest authority now_ms = do
    validate_tuple out tuple
    validate_digest_value digest
    current ← current_handoff out s tuple
    terminal ← required current.terminal
    ensure (str_eq terminal.terminal_digest digest) conflict
    check_recovery out s.db current authority
    acknowledge_current s.db current tuple digest authority now_ms

  unfoldable pub acknowledge_worker_handoff_with_authority_at :
      Store
      → WorkerHandoffTuple
      → String
      → TerminalAuthority
      → ℕ
      → Result WorkerAcknowledgment × Store
  unfolding acknowledge_tx commit
  acknowledge_worker_handoff_with_authority_at s tuple digest authority now_ms =
      commit s (acknowledge_tx s tuple digest authority now_ms)

  unfoldable pub acknowledge_worker_handoff_at :
      Store → WorkerHandoffTuple → String → ℕ → Result WorkerAcknowledgment × Store
  unfolding acknowledge_worker_handoff_with_authority_at
  acknowledge_worker_handoff_at s tuple digest =
      acknowledge_worker_handoff_with_authority_at s tuple digest original_incarnation

  unfoldable pub acknowledge_worker_handoff_with_recovery_at :
      Store
      → WorkerHandoffTuple
      → String
      → WorkerControlWitness
      → ℕ
      → Result WorkerAcknowledgment × Store
  unfolding acknowledge_worker_handoff_with_authority_at
  acknowledge_worker_handoff_with_recovery_at s tuple digest recovery =
      acknowledge_worker_handoff_with_authority_at s tuple digest (current_recovery recovery)
