-- ===== src/Storage/Worker/Handed.antt =====
-- What a claim reserves, and what an acknowledgment delivers.
use mathlib.Core.Path.{subst}
use ascension_watchdog.Prelude.{
  ℕ, ◌+◌, ◌≢◌, ◌⊎◌, false, Bool, str_eq, ◌&&◌, ◌≡◌, refl, String, true, Option, none, some, List,
  [], ◌∷◌, ◌++◌, arith, inl, inr, ap, sym, ◌∙◌, eq_iff,
}
use ascension_watchdog.Prelude.Lists.{keep_where, count_where, count_where-append, find_where}
use ascension_watchdog.Prelude.Updates.{find_where-append_last, find_where-update, find_where-holds}
use ascension_watchdog.Error.{Result, ok, err, ok-eq}
use ascension_watchdog.Storage.Db.{JobRow, Db, Store, commit-ok}
use ascension_watchdog.Storage.Jobs.Select.{row_before, oldest, is_ready, unresolved_attempts}
use ascension_watchdog.Storage.Jobs.Oldest.{
  Ready, Unready, is_ready-Ready, is_ready-Unready, timestamp-eq, number-eq,
}
use ascension_watchdog.Prelude.Tests.{Bool-cases}
use ascension_watchdog.Prelude.Earliest.{IsEarliest, earliest_by-IsEarliest}
use ascension_watchdog.Storage.Worker.Types.{
  worker_handoff_operation, worker_handoff_payload_digest, WorkerClaimWitness, WorkerHandoffTuple,
  WorkerTerminalRecord, WorkerAcknowledgment, HandoffRow,
}
use ascension_watchdog.Storage.Worker.Outside.{Outside}
use ascension_watchdog.Storage.Worker.Rows.{RawHandoff, terminal_from_row}
use ascension_watchdog.Storage.Worker.Queries.{WorkerHandoff, is_handoff, handoff_row}
use ascension_watchdog.Storage.Worker.Claim.{
  DrawnIds, is_episode, is_open, open_handoffs, tuple_of, prepared_handoff,
  claim_next_worker_handoff, then_handoff,
}
use ascension_watchdog.Storage.Worker.Complete.{TerminalAuthority}
use ascension_watchdog.Storage.Worker.Acknowledge.{
  is_acknowledged, is_finished, is_awaiting, intent_of, current_ack_intent, acknowledged_handoff,
  acknowledge_worker_handoff_with_authority_at,
}
use ascension_watchdog.Storage.Worker.Life.{reserved, delivered, stage, evidence_of}
use ascension_watchdog.Storage.Worker.Inversions.{Updates}
use ascension_watchdog.Storage.Worker.Endings.Deliveries.{acknowledge_tx-Acknowledges}
use ascension_watchdog.Storage.Worker.Claims.{Claims, claim_handoff_tx-cases}
use ascension_watchdog.Storage.Worker.Exclusive.{new_keys}
use ascension_watchdog.Storage.Worker.Loaded.{current_handoff-Loads}

-- A ready job that is an episode of the worker.
abbrev pub Episode : ℕ → JobRow → Type 0
Episode now_ms row =
    Ready now_ms row
    × (row.kind ≡ worker_handoff_operation)
    × (row.payload_digest ≡ worker_handoff_payload_digest)

-- A job that is not ready, or not an episode of the worker.
abbrev pub NoEpisode : ℕ → JobRow → Type 0
NoEpisode now_ms row =
    Unready now_ms row
    ⊎ (row.kind ≢ worker_handoff_operation)
    ⊎ (row.payload_digest ≢ worker_handoff_payload_digest)

all_three : (x y z : Bool) → (x && y && z) ≡ true → (x ≡ true) × (y ≡ true) × (z ≡ true)
all_three x y z h = ground arith

differ : (a b : String) → str_eq a b ≡ false → a ≢ b
differ a b h e = cc (sym h ∙ (eq_iff a b).1 e)

is_episode-Episode : (now_ms : ℕ) (row : JobRow) → is_episode now_ms row ≡ true → Episode now_ms row
is_episode-Episode now_ms row h =
    let (ready, kind, digest) =
      all_three (is_ready now_ms row) (str_eq row.kind worker_handoff_operation)
        (str_eq row.payload_digest worker_handoff_payload_digest) h in
    (
      is_ready-Ready now_ms row ready,
      (eq_iff row.kind worker_handoff_operation).0 kind,
      (eq_iff row.payload_digest worker_handoff_payload_digest).0 digest,
    )

is_episode-NoEpisode :
    (now_ms : ℕ) (row : JobRow) → is_episode now_ms row ≡ false → NoEpisode now_ms row
is_episode-NoEpisode now_ms row h = elim (Bool-cases (is_ready now_ms row)) [
  | inr unready ↦ inl (is_ready-Unready now_ms row unready)
  | inl ready ↦ elim (Bool-cases (str_eq row.kind worker_handoff_operation)) [
    | inr kind ↦ inr (inl (differ row.kind worker_handoff_operation kind))
    | inl kind ↦
        inr (inr (differ row.payload_digest worker_handoff_payload_digest (rw (ready, kind) at h)))
  ]
]

-- A hand-off of the oldest ready episode for a witness, reserved under the drawn identifiers.
pub record IsReservation (before : Db) (witness : WorkerClaimWitness) (now_ms : ℕ) (ids : DrawnIds)
    (db : Db) : Type 0 where
  pub row : HandoffRow
  pub found : handoff_row db ids.handoff_id ≡ some row
  pub stage : stage row ≡ reserved
  pub job : JobRow
  pub oldest : IsEarliest (Episode now_ms) (NoEpisode now_ms) (λ r. r.created_at_ms) before.jobs job
  pub tuple : row.tuple ≡ record {
    handoff_id = ids.handoff_id;
    deployment_id = witness.deployment_id;
    job_id = job.id;
    attempt_id = ids.attempt_id;
    attempt_number = job.attempt_count + 1;
    worker_owner_id = witness.worker_owner_id;
    worker_profile_digest = witness.worker_profile_digest;
    run_id = ids.run_id;
    episode_id = ids.episode_id;
    trajectory_id = ids.trajectory_id;
    payload_digest = job.payload_digest;
  }
  pub watchdog_boot : row.watchdog_boot_id ≡ witness.watchdog_boot_id
  pub worker_boot : row.worker_boot_id ≡ witness.worker_boot_id

reserves :
    (db db' : Db) (witness : WorkerClaimWitness) (now_ms : ℕ) (ids : DrawnIds)
    → (c : Claims db witness ids db') → oldest (keep_where (is_episode now_ms) db.jobs) ≡ some c.job
    → IsReservation db witness now_ms ids db'
unfolding oldest
reserves db db' witness now_ms ids c chosen =
    let row =
      prepared_handoff witness (tuple_of witness ids c.job c.number) c.sequence c.parameters
        c.now in
    record {
      row = row;
      found =
          ap (λ hs. find_where (is_handoff ids.handoff_id) hs) c.handoffs
          ∙ find_where-append_last (is_handoff ids.handoff_id) db.worker_handoffs row
              (new_keys row db.worker_handoffs c.new).0
              ((eq_iff ids.handoff_id ids.handoff_id).1 refl);
      stage = refl;
      job = c.job;
      oldest =
          earliest_by-IsEarliest row_before (λ r. r.created_at_ms) (λ a b e. ground arith)
            (λ a b e. ground arith) (Episode now_ms) (NoEpisode now_ms) (is_episode now_ms) db.jobs
            (is_episode-Episode now_ms) (is_episode-NoEpisode now_ms) chosen;
      tuple = ap (λ n. tuple_of witness ids c.job n) (number-eq c.job.attempt_count c.counted);
      watchdog_boot = refl;
      worker_boot = refl;
    }

one_open :
    (rows : List HandoffRow) (row : HandoffRow)
    → count_where (λ r. is_open r.state) rows ≡ 0
    → is_open row.state ≡ true
    → count_where (λ r. is_open r.state) (rows ++ row ∷ []) ≡ 1
one_open rows row none_there is =
    let total = count_where-append (λ r. is_open r.state) rows (row ∷ []) in
    ground (arith, total, none_there, is)

-- A row is delivered with the evidence that it had.
abbrev pub IsDelivered : HandoffRow → HandoffRow → Type 0
IsDelivered before after =
    (stage after ≡ delivered (evidence_of before)) × (after.tuple ≡ before.tuple)

acknowledged_stage :
    (row : HandoffRow) → is_acknowledged row.state ≡ true → stage row ≡ delivered (evidence_of row)
acknowledged_stage row h = ground arith

intent_row :
    (db : Db) (id : String) {row : HandoffRow}
    → handoff_row db id ≡ some row
    → current_ack_intent db id ≡ ok true
    → row.ack_intent ≡ true
unfolding current_ack_intent
intent_row db id {row = row} found h =
    sym (ok-eq (subst (λ (o : Option HandoffRow). intent_of o ≡ ok true) found h))

module _ {Value Uuid : Type 0} (out : Outside Value Uuid) where
  then_handoff-ok :
      (r : Result (Option String) × Store) {handoff : WorkerHandoff Value} {s : Store}
      → then_handoff out r ≡ (ok (some handoff), s)
      → (id : String) × (r ≡ (ok (some id), s))
  then_handoff-ok (err e, s') h = cc (ap (λ p. p.0) h)
  then_handoff-ok (ok none, s') h = cc (ok-eq (ap (λ p. p.0) h))
  then_handoff-ok (ok (some id), s') h = (id, ap (λ t. (ok (some id), t)) (ap (λ p. p.1) h))

  -- A hand-off is claimed only where no attempt was unresolved and no hand-off open; after it one of
  -- each is, and the hand-off is stored, reserved, for a ready episode than which no ready episode
  -- is earlier: with the five drawn identifiers, the deployment, the owner, the profile and the
  -- boots of the witness, and the identifier, the digest and the next attempt number of the job.
  pub claim-reserves :
      (s : Store) (witness : WorkerClaimWitness) (now_ms : ℕ) (ids : DrawnIds)
      {handoff : WorkerHandoff Value} {s' : Store}
      → claim_next_worker_handoff out s witness now_ms ids ≡ (ok (some handoff), s')
      → (unresolved_attempts s.db ≡ 0)
        × (open_handoffs s.db ≡ 0)
        × (unresolved_attempts s'.db ≡ 1)
        × (open_handoffs s'.db ≡ 1)
        × IsReservation s.db witness now_ms ids s'.db
  unfolding claim_next_worker_handoff
  claim-reserves s witness now_ms ids {s' = s'} h =
      let (id, committed) = then_handoff-ok _ h in
      let (db, done, is) = commit-ok s _ committed in
      let db_is : db ≡ s'.db = sym (ap (λ (t : Store). t.db) is) in
      elim (claim_handoff_tx-cases out s witness now_ms ids done) [
        | inl (nothing, _) ↦ cc nothing
        | inr (_, hands) ↦
            let c = hands.claims in
            subst
              (λ (d : Db).
                (unresolved_attempts s.db ≡ 0)
                × (open_handoffs s.db ≡ 0)
                × (unresolved_attempts d ≡ 1)
                × (open_handoffs d ≡ 1)
                × IsReservation s.db witness now_ms ids d)
              db_is
              (
                hands.free,
                hands.none_open,
                rw c.queue.1 (omega (arith, c.starts.unresolved, hands.free)),
                rw c.handoffs (
                    one_open s.db.worker_handoffs
                      (prepared_handoff witness (tuple_of witness ids c.job c.number) c.sequence
                        c.parameters c.now)
                      hands.none_open refl),
                reserves s.db db witness now_ms ids c (
                    subst (λ (t : ℕ). oldest (keep_where (is_episode t) s.db.jobs) ≡ some c.job)
                      (timestamp-eq now_ms hands.clock) hands.chosen),
              )
      ]

  Delivered-row :
      (db : Db) (row : HandoffRow) (id : String) (now : ℕ) {db' : Db}
      → handoff_row db id ≡ some row
      → is_finished row.state ≡ true
      → row.ack_intent ≡ true
      → Updates (is_awaiting id) (acknowledged_handoff now) db db'
      → (handoff_row db' id ≡ some (acknowledged_handoff now row))
        × (db'.jobs ≡ db.jobs)
        × (db'.attempts ≡ db.attempts)
  Delivered-row db row id now found over intent u =
      let here = find_where-holds (is_handoff id) db.worker_handoffs found in
      (
        ap (λ (x : Db). handoff_row x id) u.rest
            ∙ find_where-update (is_handoff id) (is_awaiting id) (acknowledged_handoff now)
                (λ x. refl) db.worker_handoffs found (rw (here, over, intent) refl),
        ap (λ (x : Db). x.jobs) u.rest,
        ap (λ (x : Db). x.attempts) u.rest,
      )

  -- An acknowledgment is answered only with the digest of the stored receipt; the row of the
  -- hand-off is delivered after it with the evidence and the tuple that it had, and no job and no
  -- attempt is changed.
  pub acknowledge-delivers :
      (s : Store) (tuple : WorkerHandoffTuple) (digest : String) (authority : TerminalAuthority)
      (now_ms : ℕ) {answer : WorkerAcknowledgment} {s' : Store}
      → acknowledge_worker_handoff_with_authority_at out s tuple digest authority now_ms
        ≡ (ok answer, s')
      → (answer.terminal_digest ≡ digest)
        × ((before after : HandoffRow) × (t : WorkerTerminalRecord) × (handoff_row s.db
                tuple.handoff_id
              ≡ some before)
            × (handoff_row s'.db tuple.handoff_id ≡ some after)
            × (terminal_from_row out before ≡ ok (some t))
            × (t.terminal_digest ≡ digest)
            × IsDelivered before after)
        × (s'.db.jobs ≡ s.db.jobs)
        × (s'.db.attempts ≡ s.db.attempts)
  unfolding acknowledge_worker_handoff_with_authority_at
  acknowledge-delivers s tuple digest authority now_ms {s' = s'} h =
      let (db, done, is) = commit-ok s _ h in
      let db_is : s'.db ≡ db = ap (λ (t : Store). t.db) is in
      let a = acknowledge_tx-Acknowledges out s tuple digest authority now_ms done in
      let loads = current_handoff-Loads out s tuple a.loaded in
      let row = loads.row in
      let stored =
        loads.decodes.read
        ∙ ap (λ x. ok x)
            (sym (ap (λ (r : RawHandoff Value). r.terminal) loads.decodes.is) ∙ a.recorded) in
      let same = (eq_iff a.terminal.terminal_digest digest).0 a.matches in
      let state_is = ap (λ (r : RawHandoff Value). r.state) loads.decodes.is in
      elim a.delivered [
        | inl (over, answered, unchanged) ↦
            let back = db_is ∙ unchanged in
            (
              ap (λ (w : WorkerAcknowledgment). w.terminal_digest) answered,
              (
                row,
                row,
                a.terminal,
                loads.found,
                ap (λ (d : Db). handoff_row d tuple.handoff_id) back ∙ loads.found,
                stored,
                same,
                (acknowledged_stage row (ap is_acknowledged (sym state_is) ∙ over), refl),
              ),
              ap (λ (d : Db). d.jobs) back,
              ap (λ (d : Db). d.attempts) back,
            )
        | inr (over, answered, intent, (now, u)) ↦
            let (found, jobs, attempts) =
              Delivered-row s.db row tuple.handoff_id now loads.found
                (ap is_finished (sym state_is) ∙ over)
                (intent_row s.db tuple.handoff_id loads.found intent) u in
            (
              ap (λ (w : WorkerAcknowledgment). w.terminal_digest) answered,
              (
                row,
                acknowledged_handoff now row,
                a.terminal,
                loads.found,
                ap (λ (d : Db). handoff_row d tuple.handoff_id) db_is ∙ found,
                stored,
                same,
                (refl, refl),
              ),
              ap (λ (d : Db). d.jobs) db_is ∙ jobs,
              ap (λ (d : Db). d.attempts) db_is ∙ attempts,
            )
      ]
