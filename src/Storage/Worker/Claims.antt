-- ===== src/Storage/Worker/Claims.antt =====
-- What a successful claim of a hand-off checked, and the rows that it wrote.
use mathlib.Core.Path.{subst}
use ascension_watchdog.Prelude.{
  ℕ, ◌≡◌, ◌⊎◌, refl, String, true, false, ◌||◌, not, Option, none, some, [], ◌∷◌, ◌++◌, arith, inl,
  inr, ap, sym, ◌∙◌, str_eq,
}
use ascension_watchdog.Prelude.Tests.{ltb, ◌==◌}
use ascension_watchdog.Prelude.Lists.{
  count_where, keep_where, update_where, count_where-append, length-update_where,
  count_where-update_gain,
}
use ascension_watchdog.Prelude.Text.{substr}
use ascension_watchdog.Error.{Result, ok, >>=-eq-ok, if-cases}
use ascension_watchdog.Storage.Db.{JobRow, Db, Store}
use ascension_watchdog.Storage.Metadata.{validate_name, sqlite_timestamp}
use ascension_watchdog.Storage.Metadata.Ledger.{insert_audit_tx-only}
use ascension_watchdog.Storage.Jobs.{validate_claim_payload}
use ascension_watchdog.Storage.Jobs.Select.{
  is_running, attempt_is_running, is_unresolved, unresolved_attempts, oldest,
}
use ascension_watchdog.Storage.Jobs.Claim.{
  insert_attempt_row, claimed_attempt, next_attempt_number, payload_read_limit,
}
use ascension_watchdog.Storage.Jobs.Counts.{Starts, SameQueue, insert_attempt_row-inv}
use ascension_watchdog.Storage.Jobs.Outcomes.{state-eq, answer-eq}
use ascension_watchdog.Storage.Worker.Types.{
  worker_handoff_operation, WorkerClaimWitness, HandoffRow,
}
use ascension_watchdog.Storage.Worker.Outside.{Outside}
use ascension_watchdog.Storage.Worker.Validate.{validate_claim_witness}
use ascension_watchdog.Storage.Worker.Control.{bounded_required_text, validate_claim_witness_tx}
use ascension_watchdog.Storage.Worker.Claim.{
  DrawnIds, open_handoffs, unresolved_handoff_exists, is_episode, is_claimable_at, handed_job,
  tuple_of, prepared_handoff, collides, insert_handoff_row, handoff_writes, handoff_row_tx,
  claim_handoff_tx,
}

insert_handoff_row-inv :
    (db : Db) (row : HandoffRow) {db' : Db}
    → insert_handoff_row db row ≡ ok db'
    → (count_where (collides row) db.worker_handoffs ≡ 0)
      × (db' ≡ record db { worker_handoffs = db.worker_handoffs ++ row ∷ [] })
unfolding insert_handoff_row
insert_handoff_row-inv db row h = ground arith

-- The writes: one job and one attempt start, and one prepared hand-off is added.
pub record Claims (db : Db) (witness : WorkerClaimWitness) (ids : DrawnIds) (db' : Db)
    : Type 0 where
  pub job : JobRow
  pub number : ℕ
  pub sequence : ℕ
  pub parameters : String
  pub now : ℕ
  pub counted : next_attempt_number job.attempt_count ≡ ok number
  pub started : Db
  pub starts : Starts db started
  pub queue : SameQueue started db'
  pub binding : db'.worker_binding ≡ db.worker_binding
  pub control : db'.worker_control ≡ db.worker_control
  pub new :
      count_where
        (collides
          (prepared_handoff witness (tuple_of witness ids job number) sequence parameters now))
        db.worker_handoffs
      ≡ 0
  pub handoffs :
      db'.worker_handoffs
      ≡ db.worker_handoffs
        ++ prepared_handoff witness (tuple_of witness ids job number) sequence parameters now ∷ []

module _ (db : Db) (row : JobRow) (owner attempt_id : String) (now number : ℕ) {db' : Db} where
  Starts-by :
      (count_where (is_claimable_at row.id now) db.jobs == 1) ≡ true
      → insert_attempt_row
          (record db {
            jobs = update_where (is_claimable_at row.id now) (handed_job owner now number) db.jobs;
          })
          (claimed_attempt attempt_id row owner now number)
        ≡ ok db'
      → Starts db db'
  Starts-by one h =
      let attempt = claimed_attempt attempt_id row owner now number in
      let update = handed_job owner now number in
      let (jobs, attempts, worker) = insert_attempt_row-inv _ attempt h in
      record {
        jobs = rw jobs (
            ground (
              arith,
              count_where-update_gain (is_claimable_at row.id now) (λ r. is_running r.status) update
                  (λ r p. ground arith) (λ r p. refl) db.jobs,
            ));
        attempts =
            rw attempts
              (count_where-append (λ r. attempt_is_running r.status) db.attempts (attempt ∷ []));
        unresolved =
            rw attempts
              (count_where-append (λ r. is_unresolved r.status) db.attempts (attempt ∷ []));
        size = rw jobs (length-update_where (is_claimable_at row.id now) update db.jobs);
        worker = worker;
      }

idle :
    (answer : Option String) (db db' : Db)
    → ◌≡◌ {A = Result (Option String × Db)} (ok (none, db)) (ok (answer, db'))
    → (answer ≡ none) × (db' ≡ db)
idle answer db db' e = (answer-eq none answer db db' e, state-eq none answer db db' e)

module _ {Value Uuid : Type 0} (out : Outside Value Uuid) where
  handoff_writes-Claims :
      (db : Db) (row : JobRow) (payload : Value) (witness : WorkerClaimWitness) (ids : DrawnIds)
      (number now : ℕ) {db' : Db}
      → (count_where (is_claimable_at row.id now) db.jobs == 1) ≡ true
      → next_attempt_number row.attempt_count ≡ ok number
      → handoff_writes out db row payload witness ids number now ≡ ok db'
      → (c : Claims db witness ids db') × (◌≡◌ {A = Option JobRow} (some row) (some c.job))
  unfolding handoff_writes
  handoff_writes-Claims db row payload witness ids number now {db' = db'} one counted h =
      let (attempted, begun, h1) = >>=-eq-ok (insert_attempt_row _ _) _ h in
      let (sequence, _, h2) = >>=-eq-ok (sqlite_timestamp witness.mode_sequence) _ h1 in
      let (parameters, _, h3) = >>=-eq-ok (out.codec.to_text payload) _ h2 in
      let added =
        prepared_handoff witness (tuple_of witness ids row number) sequence parameters now in
      let (inserted, i, a) = >>=-eq-ok (insert_handoff_row attempted added) _ h3 in
      let (new, is) = insert_handoff_row-inv attempted added i in
      let starts = Starts-by db row witness.worker_owner_id ids.attempt_id now number one begun in
      let rest =
        insert_audit_tx-only inserted _ _ now a
        ∙ ap (λ (d : Db). record d { audit = db'.audit }) is in
      let before = ap (λ p. p.2) starts.worker in
      (
        record {
          job = row;
          number = number;
          sequence = sequence;
          parameters = parameters;
          now = now;
          counted = counted;
          started = attempted;
          starts = starts;
          queue = (ap (λ (d : Db). d.jobs) rest, ap (λ (d : Db). d.attempts) rest);
          binding = ap (λ (d : Db). d.worker_binding) rest ∙ ap (λ p. p.0) starts.worker;
          control = ap (λ (d : Db). d.worker_control) rest ∙ ap (λ p. p.1) starts.worker;
          new = subst (λ hs. count_where (collides added) hs ≡ 0) before new;
          handoffs = ap (λ (d : Db). d.worker_handoffs) rest ∙ ap (λ hs. hs ++ added ∷ []) before;
        },
        refl,
      )

  handoff_row_tx-cases :
      (db : Db) (limit bound : ℕ) (o : Option JobRow) (witness : WorkerClaimWitness)
      (ids : DrawnIds) (now : ℕ) {answer : Option String} {db' : Db}
      → handoff_row_tx out db limit bound o witness ids now ≡ ok (answer, db')
      → ((answer ≡ none) × (db' ≡ db))
        ⊎ ((answer ≡ some ids.handoff_id) × ((c : Claims db witness ids db') × (o ≡ some c.job)))
  unfolding handoff_row_tx
  handoff_row_tx-cases db limit bound none witness ids now {answer = answer} {db' = db'} h =
      inl (idle answer db db' h)
  handoff_row_tx-cases db limit bound (some row) witness ids now {answer = answer} {db' = db'} h =
      let (_, _, h1) = >>=-eq-ok (bounded_required_text 128 row.id) _ h in
      let (_, _, h2) = >>=-eq-ok (validate_name row.id 128) _ h1 in
      elim (if-cases (not (str_eq row.kind worker_handoff_operation)) _ _ h2) [
        | inl (_, e) ↦ inl (idle answer db db' e)
        | inr (_, h3) ↦
            let (payload, _, h4) =
              >>=-eq-ok
                (validate_claim_payload out.codec (substr limit row.payload) row.payload_digest
                  bound)
                _ h3 in
            elim (if-cases
              (not (out.same_value payload out.empty_object) || ltb now row.created_at_ms) _ _ h4) [
                | inl (_, e) ↦ inl (idle answer db db' e)
                | inr (_, h5) ↦
                    let (number, counted, h6) =
                      >>=-eq-ok (next_attempt_number row.attempt_count) _ h5 in
                    elim (if-cases (not (count_where (is_claimable_at row.id now) db.jobs == 1)) _ _
                      h6) [
                        | inl (_, e) ↦ inl (idle answer db db' e)
                        | inr (one, h7) ↦
                            let (written, w, e) =
                              >>=-eq-ok (handoff_writes out db row payload witness ids number now) _
                                h7 in
                            inr (
                              answer-eq (some ids.handoff_id) answer written db' e,
                              subst
                                  (λ (d : Db).
                                    (c : Claims db witness ids d) × (◌≡◌ {A = Option JobRow}
                                      (some row) (some c.job)))
                                  (sym (state-eq (some ids.handoff_id) answer written db' e))
                                  (handoff_writes-Claims db row payload witness ids number now
                                    (ground arith) counted w),
                            )
                      ]
              ]
      ]

  -- What a claim that hands a job off found.
  pub record HandsOff (s : Store) (witness : WorkerClaimWitness) (now_ms : ℕ) (ids : DrawnIds)
      (db : Db) : Type 0 where
    pub allowed : validate_claim_witness_tx out s.db witness ≡ ok tt
    pub free : unresolved_attempts s.db ≡ 0
    pub none_open : open_handoffs s.db ≡ 0
    pub claims : Claims s.db witness ids db
    pub now : ℕ
    pub clock : sqlite_timestamp now_ms ≡ ok now
    pub chosen : oldest (keep_where (is_episode now) s.db.jobs) ≡ some claims.job

  nothing_open :
      (db : Db)
      → (ltb 0 (unresolved_attempts db) || unresolved_handoff_exists db) ≡ false
      → (unresolved_attempts db ≡ 0) × (open_handoffs db ≡ 0)
  unfolding unresolved_handoff_exists
  nothing_open db h = ground arith

  -- A claim writes nothing and answers nothing, or hands one job off where nothing was unresolved.
  pub claim_handoff_tx-cases :
      (s : Store) (witness : WorkerClaimWitness) (now_ms : ℕ) (ids : DrawnIds)
      {answer : Option String} {db : Db}
      → claim_handoff_tx out s witness now_ms ids ≡ ok (answer, db)
      → ((answer ≡ none) × (db ≡ s.db))
        ⊎ ((answer ≡ some ids.handoff_id) × HandsOff s witness now_ms ids db)
  unfolding claim_handoff_tx
  claim_handoff_tx-cases s witness now_ms ids {answer = answer} {db = db} h =
      let (_, _, h1) = >>=-eq-ok (validate_claim_witness out witness) _ h in
      let (limit, _, h2) = >>=-eq-ok (payload_read_limit s.max_payload_bytes) _ h1 in
      let (_, allowed, h3) = >>=-eq-ok (validate_claim_witness_tx out s.db witness) _ h2 in
      elim (if-cases (ltb 0 (unresolved_attempts s.db) || unresolved_handoff_exists s.db) _ _ h3) [
        | inl (_, e) ↦ inl (idle answer s.db db e)
        | inr (quiet, h4) ↦
            let (now, clock, h5) = >>=-eq-ok (sqlite_timestamp now_ms) _ h4 in
            let (free, none_open) = nothing_open s.db quiet in
            elim (handoff_row_tx-cases s.db limit s.max_payload_bytes
              (oldest (keep_where (is_episode now) s.db.jobs)) witness ids now h5) [
                | inl same ↦ inl same
                | inr (is, (claims, chosen)) ↦ inr (
                  is,
                  record {
                    allowed = allowed;
                    free = free;
                    none_open = none_open;
                    claims = claims;
                    now = now;
                    clock = clock;
                    chosen = chosen;
                  },
                )
              ]
      ]
