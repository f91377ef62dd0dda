-- ===== src/Storage/Jobs/History.antt =====
-- Histories of calls on the queue, and the rule by which a property of stores survives them.
use mathlib.Core.Path.{subst}
use ascension_watchdog.Prelude.{ℕ, ◌≡◌, refl, String, Option, List, [], ◌∷◌, inl, inr, ap, sym}
use ascension_watchdog.Config.{DesiredMode}
use ascension_watchdog.Error.{Result, ok, err, ◌>>=◌, >>=-eq-ok}
use ascension_watchdog.Storage.Db.{Db, Store, commit, commit-keeps, worker_tables, SameWorker}
use ascension_watchdog.Storage.Metadata.{set_desired_mode_at, set_desired_mode_tx}
use ascension_watchdog.Storage.Metadata.Mode.{
  set_desired_mode_tx-Changed, set_desired_mode_tx-worker,
}
use ascension_watchdog.Storage.Jobs.{Codec}
use ascension_watchdog.Storage.Jobs.Select.{unresolved_attempts}
use ascension_watchdog.Storage.Jobs.Counts.{Stops, Starts, Submits, quarantine_one-Stops}
use ascension_watchdog.Storage.Jobs.Outcomes.{
  complete_tx-cases, fail_tx-Stops, claim_tx-cases, submit_tx-Submits,
}
use ascension_watchdog.Storage.Jobs.Submit.{submit_tx, submit_job_at, then_get}
use ascension_watchdog.Storage.Jobs.Claim.{claim_next_job}
use ascension_watchdog.Storage.Jobs.Complete.{complete_job_at}
use ascension_watchdog.Storage.Jobs.Fail.{fail_job_at}
use ascension_watchdog.Storage.Jobs.Quarantine.{
  quarantine_one, quarantine_all, running_ids, quarantine_tx, quarantine_interrupted_jobs,
}

-- A call on the store. An identifier that a call draws is given with it.
pub data Op (Value : Type 0) : Type 0 where
  submit : (id kind : String) → Value → (now_ms : ℕ) → Op Value
  claim : (worker_id : String) → (now_ms : ℕ) → (attempt_id : String) → Op Value
  complete : (job_id attempt_id : String) → Value → (now_ms : ℕ) → Op Value
  fail : (job_id attempt_id error : String) → Option ℕ → (now_ms : ℕ) → Op Value
  quarantine : (now_ms : ℕ) → Op Value
  set_mode : DesiredMode → (now_ms : ℕ) → Op Value

-- A property that every kind of successful transaction keeps.
pub record IsKept (P : Store → Type 0) : Type 0 where
  pub same :
      (s : Store) (db : Db)
      → P s
      → db.jobs ≡ s.db.jobs
      → db.attempts ≡ s.db.attempts
      → SameWorker s.db db
      → P (record s { db = db })
  pub stops :
      (s : Store) (freed : ℕ) (db : Db) → P s → Stops freed s.db db → P (record s { db = db })
  pub starts :
      (s : Store) (db : Db)
      → P s
      → unresolved_attempts s.db ≡ 0
      → Starts s.db db
      → P (record s { db = db })
  pub submits : (s : Store) (db : Db) → P s → Submits s.max_jobs s.db db → P (record s { db = db })

module _ (P : Store → Type 0) (kept : IsKept P) where
  quarantine_all-keeps :
      (s : Store) (ids : List String) (now_ms : ℕ) {db : Db}
      → P s
      → quarantine_all s.db ids now_ms ≡ ok db
      → P (record s { db = db })
  unfolding quarantine_all
  quarantine_all-keeps s [] now_ms {db = db} h e =
      let same : s.db ≡ db = cc e in subst (λ (d : Db). P (record s { db = d })) same h
  quarantine_all-keeps s (id ∷ ids) now_ms h e =
      let (db1, one, rest) = >>=-eq-ok (quarantine_one s.db id now_ms) _ e in
      quarantine_all-keeps (record s { db = db1 }) ids now_ms
        (kept.stops s 0 db1 h (quarantine_one-Stops s.db id now_ms one)) rest

  quarantine_tx-keeps :
      (s : Store) (now_ms : ℕ) {n : ℕ} {db : Db}
      → P s
      → quarantine_tx s.db now_ms ≡ ok (n, db)
      → P (record s { db = db })
  unfolding quarantine_tx
  quarantine_tx-keeps s now_ms {db = db} h e =
      let (db', all, last) = >>=-eq-ok (quarantine_all s.db (running_ids s.db) now_ms) _ e in
      let same : db' ≡ db = cc last in
      subst (λ (d : Db). P (record s { db = d })) same
        (quarantine_all-keeps s (running_ids s.db) now_ms h all)

  set_mode-keeps :
      (s : Store) (mode : DesiredMode) (now_ms : ℕ) {a : Unit {0}} {db : Db}
      → P s
      → ◌≡◌ {A = Result (Unit {0} × Db)}
          (do db ← set_desired_mode_tx s.db mode now_ms; ok (tt, db))
          (ok (a, db))
      → P (record s { db = db })
  set_mode-keeps s mode now_ms {db = db} h e =
      let (db', set, last) = >>=-eq-ok (set_desired_mode_tx s.db mode now_ms) _ e in
      let same : db' ≡ db = cc last in
      let (_, _, jobs, attempts) = set_desired_mode_tx-Changed s.db mode now_ms set in
      subst (λ (d : Db). P (record s { db = d })) same
        (kept.same s db' h jobs attempts (set_desired_mode_tx-worker s.db mode now_ms set))

module _ {Value : Type 0} (codec : Codec Value) (null : Value) where
  -- The store after a call, whatever its answer.
  unfoldable pub execute : Store → Op Value → Store
  execute s (submit id kind v now_ms) = (submit_job_at codec s id kind v now_ms).1
  execute s (claim worker_id now_ms attempt_id) =
      (claim_next_job codec s worker_id now_ms attempt_id).1
  execute s (complete job_id attempt_id v now_ms) =
      (complete_job_at codec null s job_id attempt_id v now_ms).1
  execute s (fail job_id attempt_id error retry now_ms) =
      (fail_job_at s job_id attempt_id error retry now_ms).1
  execute s (quarantine now_ms) = (quarantine_interrupted_jobs s now_ms).1
  execute s (set_mode mode now_ms) = (set_desired_mode_at s mode now_ms).1

  unfoldable pub execute_all : Store → List (Op Value) → Store
  execute_all s [] = s
  execute_all s (op ∷ ops) = execute_all (execute s op) ops

  then_get-store : (id : String) (r : Result (Unit {0}) × Store) → (then_get codec id r).1 ≡ r.1
  then_get-store id (ok _, s) = refl
  then_get-store id (err _, s) = refl

module _ {Value : Type 0} (codec : Codec Value) (null : Value) (P : Store → Type 0)
    (kept : IsKept P) where
  -- Every call, whatever its answer, keeps such a property.
  pub execute-keeps : (s : Store) (op : Op Value) → P s → P (execute codec null s op)
  unfolding execute submit_job_at claim_next_job complete_job_at fail_job_at
      quarantine_interrupted_jobs set_desired_mode_at
  execute-keeps s (submit id kind v now_ms) h =
      subst P (sym (then_get-store codec null id (commit s (submit_tx codec s id kind v now_ms)))) (
        commit-keeps P s _ h
          (λ a db e. kept.submits s db h (submit_tx-Submits codec s id kind v now_ms e)))
  execute-keeps s (claim worker_id now_ms attempt_id) h = commit-keeps P s _ h (λ a db e.
      elim (claim_tx-cases codec s worker_id now_ms attempt_id e) [
        | inl same ↦
            kept.same s db h (ap (λ d. d.jobs) same) (ap (λ d. d.attempts) same)
              (ap worker_tables same)
        | inr (free, starts) ↦ kept.starts s db h free starts
      ])
  execute-keeps s (complete job_id attempt_id v now_ms) h = commit-keeps P s _ h (λ a db e.
      elim (complete_tx-cases codec null s.db job_id attempt_id v now_ms e) [
        | inl same ↦
            kept.same s db h (ap (λ d. d.jobs) same) (ap (λ d. d.attempts) same)
              (ap worker_tables same)
        | inr stops ↦ kept.stops s 1 db h stops
      ])
  execute-keeps s (fail job_id attempt_id error retry now_ms) h =
      commit-keeps P s _ h
        (λ a db e. kept.stops s 1 db h (fail_tx-Stops s.db job_id attempt_id error retry now_ms e))
  execute-keeps s (quarantine now_ms) h =
      commit-keeps P s _ h (λ n db e. quarantine_tx-keeps P kept s now_ms h e)
  execute-keeps s (set_mode mode now_ms) h =
      commit-keeps P s _ h (λ a db e. set_mode-keeps P kept s mode now_ms h e)

  pub execute_all-keeps :
      (s : Store) (ops : List (Op Value)) → P s → P (execute_all codec null s ops)
  unfolding execute_all
  execute_all-keeps s [] h = h
  execute_all-keeps s (op ∷ ops) h =
      execute_all-keeps (execute codec null s op) ops (execute-keeps s op h)
