-- ===== src/Storage/Worker/Claim.antt =====
-- crates/watchdog/src/storage_worker_claims_admission.rs: `claim_next_worker_handoff`. The UUIDs
-- that it draws, each drawn again until it differs from those before it, are its argument.
use Prim.Native.String
use ascension_watchdog.Prelude.{
  ℕ, Bool, true, false, ◌&&◌, ◌||◌, not, String, Option, none, some, [], ◌∷◌, ◌++◌, str_eq,
}
use ascension_watchdog.Prelude.Tests.{ltb, leb, ◌==◌, if◌then◌else◌}
use ascension_watchdog.Prelude.Lists.{count_where, keep_where, update_where}
use ascension_watchdog.Prelude.Text.{substr}
use ascension_watchdog.Error.{Result, ok, err, sqlite, ◌>>=◌, ◌>>◌}
use ascension_watchdog.Storage.Db.{JobStatus, JobRow, Db, Store, commit}
use ascension_watchdog.Storage.Metadata.{validate_name, sqlite_timestamp, insert_audit_tx}
use ascension_watchdog.Storage.Jobs.{validate_claim_payload}
use ascension_watchdog.Storage.Jobs.Select.{
  is_queued, is_due, is_ready, oldest, unresolved_attempts,
}
use ascension_watchdog.Storage.Jobs.Claim.{
  next_attempt_number, insert_attempt_row, claimed_attempt, payload_read_limit,
}
use ascension_watchdog.Storage.Worker.Types.{
  worker_handoff_operation, worker_handoff_payload_digest, WorkerClaimWitness, WorkerHandoffState,
  WorkerHandoffTuple, HandoffRow,
}
use ascension_watchdog.Storage.Worker.Outside.{Outside}
use ascension_watchdog.Storage.Worker.Validate.{required, validate_claim_witness}
use ascension_watchdog.Storage.Worker.Control.{bounded_required_text, validate_claim_witness_tx}
use ascension_watchdog.Storage.Worker.Queries.{WorkerHandoff, worker_handoff}

pub record DrawnIds : Type 0 where
  pub handoff_id : String
  pub attempt_id : String
  pub run_id : String
  pub episode_id : String
  pub trajectory_id : String

-- `state IN ('prepared','may_have_been_dispatched','admitted')`
abbrev pub is_open : WorkerHandoffState → Bool
is_open WorkerHandoffState.prepared = true
is_open WorkerHandoffState.may_have_been_dispatched = true
is_open WorkerHandoffState.admitted = true
is_open _ = false

abbrev pub open_handoffs : Db → ℕ
open_handoffs db = count_where (λ row. is_open row.state) db.worker_handoffs

unfoldable pub unresolved_handoff_exists : Db → Bool
unresolved_handoff_exists db = ltb 0 (open_handoffs db)

-- The WHERE clause that selects an episode.
abbrev pub is_episode : ℕ → JobRow → Bool
is_episode now row =
    is_ready now row
    && str_eq row.kind worker_handoff_operation
    && str_eq row.payload_digest worker_handoff_payload_digest

-- `WHERE id=? AND status='queued' AND created_at_ms <= ? AND next_retry_at_ms <= ?`
abbrev pub is_claimable_at : String → ℕ → JobRow → Bool
is_claimable_at id now row =
    str_eq row.id id
    && is_queued row.status
    && leb row.created_at_ms now
    && is_due row.next_retry_at_ms now

abbrev pub handed_job : String → ℕ → ℕ → JobRow → JobRow
handed_job owner now number row = record row {
  status = JobStatus.running;
  claimed_at_ms = some now;
  worker_id = some owner;
  attempt_count = number;
  next_retry_at_ms = none;
}

abbrev pub tuple_of : WorkerClaimWitness → DrawnIds → JobRow → ℕ → WorkerHandoffTuple
tuple_of witness ids row number = record {
  handoff_id = ids.handoff_id;
  deployment_id = witness.deployment_id;
  job_id = row.id;
  attempt_id = ids.attempt_id;
  attempt_number = number;
  worker_owner_id = witness.worker_owner_id;
  worker_profile_digest = witness.worker_profile_digest;
  run_id = ids.run_id;
  episode_id = ids.episode_id;
  trajectory_id = ids.trajectory_id;
  payload_digest = row.payload_digest;
}

abbrev pub prepared_handoff : WorkerClaimWitness → WorkerHandoffTuple → ℕ → String → ℕ → HandoffRow
prepared_handoff witness tuple sequence parameters now = record {
  tuple = tuple;
  watchdog_boot_id = witness.watchdog_boot_id;
  worker_boot_id = witness.worker_boot_id;
  mode_sequence = sequence;
  operation = worker_handoff_operation;
  parameters = parameters;
  state = WorkerHandoffState.prepared;
  terminal_status = none;
  checkpoint_sequence = none;
  terminal_ref = none;
  result_digest = none;
  terminal_digest = none;
  terminal_result = none;
  ack_intent = false;
  created_at_ms = now;
  updated_at_ms = now;
  dispatched_at_ms = none;
  admitted_at_ms = none;
  terminal_at_ms = none;
  acknowledged_at_ms = none;
}

-- The PRIMARY KEY and the UNIQUE columns of a row are taken by another.
abbrev pub collides : HandoffRow → HandoffRow → Bool
collides row other =
    str_eq other.tuple.handoff_id row.tuple.handoff_id
    || (str_eq other.tuple.attempt_id row.tuple.attempt_id
        || (str_eq other.tuple.episode_id row.tuple.episode_id
            || (str_eq other.tuple.run_id row.tuple.run_id
                || str_eq other.tuple.trajectory_id row.tuple.trajectory_id)))

-- `INSERT INTO worker_handoffs`
unfoldable pub insert_handoff_row : Db → HandoffRow → Result Db
insert_handoff_row db row =
    if count_where (collides row) db.worker_handoffs == 0
      && not (row.tuple.attempt_number == 0 || row.mode_sequence == 0)
    then ok (record db { worker_handoffs = db.worker_handoffs ++ row ∷ [] })
    else err sqlite

module _ {Value Uuid : Type 0} (out : Outside Value Uuid) where
  -- The writes of the claim of `row`, once it is chosen and checked.
  unfoldable pub handoff_writes :
      Db → JobRow → Value → WorkerClaimWitness → DrawnIds → ℕ → ℕ → Result Db
  unfolding insert_attempt_row insert_handoff_row
  handoff_writes db row payload witness ids number now = do
    attempted ←
        insert_attempt_row
          (record db {
            jobs =
                update_where (is_claimable_at row.id now)
                  (handed_job witness.worker_owner_id now number) db.jobs;
          })
          (claimed_attempt ids.attempt_id row witness.worker_owner_id now number)
    sequence ← sqlite_timestamp witness.mode_sequence
    parameters ← out.codec.to_text payload
    inserted ←
        insert_handoff_row attempted
          (prepared_handoff witness (tuple_of witness ids row number) sequence parameters now)
    insert_audit_tx inserted "worker_handoff_prepared"
        (String.◌++◌ row.id
          (String.◌++◌ ":" (String.◌++◌ ids.attempt_id (String.◌++◌ ":" ids.handoff_id))))
        now

  -- What follows the choice of a row. The answer is the identifier of the hand-off.
  unfoldable pub handoff_row_tx :
      Db → ℕ → ℕ → Option JobRow → WorkerClaimWitness → DrawnIds → ℕ → Result (Option String × Db)
  unfolding handoff_writes next_attempt_number
  handoff_row_tx db limit bound none witness ids now = ok (none, db)
  handoff_row_tx db limit bound (some row) witness ids now = do
    bounded_required_text 128 row.id
    validate_name row.id 128
    if not (str_eq row.kind worker_handoff_operation) then ok (none, db) else do
      payload ← validate_claim_payload out.codec (substr limit row.payload) row.payload_digest bound
      if not (out.same_value payload out.empty_object) || ltb now row.created_at_ms
          then ok (none, db)
          else do
            number ← next_attempt_number row.attempt_count
            if not (count_where (is_claimable_at row.id now) db.jobs == 1)
                then ok (none, db)
                else do
                  written ← handoff_writes db row payload witness ids number now
                  ok (some ids.handoff_id, written)

  unfoldable pub claim_handoff_tx :
      Store → WorkerClaimWitness → ℕ → DrawnIds → Result (Option String × Db)
  unfolding handoff_row_tx unresolved_handoff_exists
  claim_handoff_tx s witness now_ms ids = do
    validate_claim_witness out witness
    limit ← payload_read_limit s.max_payload_bytes
    validate_claim_witness_tx out s.db witness
    if ltb 0 (unresolved_attempts s.db) || unresolved_handoff_exists s.db
        then ok (none, s.db)
        else do
          now ← sqlite_timestamp now_ms
          handoff_row_tx s.db limit s.max_payload_bytes
              (oldest (keep_where (is_episode now) s.db.jobs)) witness ids now

  -- The hand-off of an identifier, read after the commit.
  abbrev pub then_handoff :
      Result (Option String) × Store → Result (Option (WorkerHandoff Value)) × Store
  then_handoff (err error, s) = (err error, s)
  then_handoff (ok none, s) = (ok none, s)
  then_handoff (ok (some id), s) =
      (do found ← worker_handoff out s id; handoff ← required found; ok (some handoff), s)

  unfoldable pub claim_next_worker_handoff :
      Store → WorkerClaimWitness → ℕ → DrawnIds → Result (Option (WorkerHandoff Value)) × Store
  unfolding claim_handoff_tx commit worker_handoff
  claim_next_worker_handoff s witness now_ms ids =
      then_handoff (commit s (claim_handoff_tx s witness now_ms ids))
