-- ===== src/Storage/Jobs/Answers.antt =====
-- What a completion leaves in the store, and that its repeat is answered alike.
use mathlib.Core.Path.{subst}
use ascension_watchdog.Prelude.{
  ℕ, ◌≤◌, ◌≡◌, refl, String, Bool, true, false, ◌&&◌, Option, none, some, ◌⊎◌, arith, inl, inr, ap,
  sym, not, str_eq, eq_iff,
}
use ascension_watchdog.Prelude.Tests.{leb, ◌==◌, Bool-cases}
use ascension_watchdog.Prelude.Lists.{count_where, find_where, update_where}
use ascension_watchdog.Prelude.Updates.{find_where-update, find_where-holds, keep_where-update_one}
use ascension_watchdog.Prelude.Text.{byte_len}
use ascension_watchdog.Error.{
  ok, err, conflict, invalid_input, >>=-eq-ok, >>-ensure, if-err, if-cases,
}
use ascension_watchdog.Storage.Db.{JobRow, AttemptRow, Db, Store, commit, commit-ok}
use ascension_watchdog.Storage.Metadata.{sqlite_timestamp}
use ascension_watchdog.Storage.Metadata.Ledger.{insert_audit_tx-inv}
use ascension_watchdog.Storage.Jobs.{Codec, Completion, max_result_bytes}
use ascension_watchdog.Storage.Jobs.Select.{
  is_completed, is_running, attempt_is_completed, latest, job_row, completed_attempt,
}
use ascension_watchdog.Storage.Jobs.Outcomes.{state-eq, answer-eq}
use ascension_watchdog.Storage.Jobs.Complete.{
  attempt_id_of, is_active_attempt, is_running_job, completed_row, completed_job, complete_writes,
  parse_or_null, repeat_tx, complete_row, complete_tx, complete_job_at,
}

-- `status='completed'` of a job's attempts
abbrev pub is_completed_of : String → AttemptRow → Bool
is_completed_of job_id row = str_eq row.job_id job_id && attempt_is_completed row.status

one_of : {n : ℕ} → (n == 1) ≡ true → n ≡ 1
one_of {n} h = ground arith

of_not : {b : Bool} → not b ≡ false → b ≡ true
of_not {b} h = ground arith

-- What the transaction of a completion wrote: the first row of the job's identifier ran.
record Wrote (job_id attempt_id text digest : String) (db db' : Db) : Type 0 where
  row : JobRow
  time : ℕ
  found : find_where (λ row. str_eq row.id job_id) db.jobs ≡ some row
  ran : is_running row.status ≡ true
  active : count_where (is_active_attempt attempt_id job_id) db.attempts ≡ 1
  jobs : db'.jobs ≡ update_where (is_running_job job_id) (completed_job time text digest) db.jobs
  attempts :
      db'.attempts
      ≡ update_where (is_active_attempt attempt_id job_id) (completed_row time text) db.attempts

complete_writes-Wrote :
    (db : Db) (job_id attempt_id text digest : String) (now_ms : ℕ) {db' : Db} (row : JobRow)
    → complete_writes db job_id attempt_id text digest now_ms ≡ ok db'
    → find_where (λ row. str_eq row.id job_id) db.jobs ≡ some row
    → is_running row.status ≡ true
    → Wrote job_id attempt_id text digest db db'
unfolding complete_writes
complete_writes-Wrote db job_id attempt_id text digest now_ms row h found ran =
    let (t, _, r) = >>=-eq-ok (sqlite_timestamp now_ms) _ h in
    let (one_attempt, r1) = >>-ensure _ conflict _ r in
    let (one_job, r2) = >>-ensure _ conflict _ r1 in
    let (_, _, jobs, attempts, _) = insert_audit_tx-inv _ _ _ now_ms r2 in
    record {
      row = row;
      time = t;
      found = found;
      ran = ran;
      active = one_of one_attempt;
      jobs = jobs;
      attempts = attempts;
    }

module _ {Value : Type 0} (codec : Codec Value) (null : Value) where
  -- A repeat's answer is marked as such.
  repeat_tx-marked :
      (db : Db) (row : JobRow) (job_id attempt_id digest : String) {c : Completion Value} {db' : Db}
      → repeat_tx codec null db row job_id attempt_id digest ≡ ok (c, db')
      → c.already_completed ≡ true
  unfolding repeat_tx
  repeat_tx-marked db row job_id attempt_id digest h =
      let (_, h1) = if-err _ conflict _ h in
      let (_, h2) = if-err _ conflict _ h1 in
      let (v, _, e) = >>=-eq-ok (parse_or_null codec null row.result) _ h2 in
      ap (λ (c : Completion Value). c.already_completed) (answer-eq _ _ db _ e)

  complete_row-Wrote :
      (db : Db) (o : Option JobRow) (job_id attempt_id : String) (v : Value) (text : String)
      (now_ms : ℕ) {c : Completion Value} {db' : Db}
      → complete_row codec null db o job_id attempt_id v text now_ms ≡ ok (c, db')
      → find_where (λ row. str_eq row.id job_id) db.jobs ≡ o
      → c.already_completed ≡ false
      → Wrote job_id attempt_id text (codec.hex_digest text) db db'
  unfolding complete_row
  complete_row-Wrote db none job_id attempt_id v text now_ms h found first = cc h
  complete_row-Wrote db (some row) job_id attempt_id v text now_ms {db' = db'} h found first =
      elim (if-cases (is_completed row.status) _ _ h) [
        | inl (_, again) ↦ cc (repeat_tx-marked db row job_id attempt_id _ again, first)
        | inr (_, fresh) ↦
            let (ran, h1) = if-err _ conflict _ fresh in
            let (_, h2) = if-err _ conflict _ h1 in
            let (written, w, e) =
              >>=-eq-ok (complete_writes db job_id attempt_id text (codec.hex_digest text) now_ms) _
                h2 in
            subst (Wrote job_id attempt_id text (codec.hex_digest text) db)
              (sym (state-eq _ _ written db' e))
              (complete_writes-Wrote db job_id attempt_id text _ now_ms row w found (of_not ran))
      ]

module _ (job_id attempt_id text digest : String) (db db' : Db)
    (w : Wrote job_id attempt_id text digest db db') where
  wrote-job : job_row db' job_id ≡ some (completed_job w.time text digest w.row)
  unfolding job_row
  wrote-job =
      let is_it = find_where-holds (λ row. str_eq row.id job_id) db.jobs w.found in
      let run = w.ran in
      rw w.jobs (
        find_where-update (λ row. str_eq row.id job_id) (is_running_job job_id)
          (completed_job w.time text digest) (λ row. refl) db.jobs w.found (ground arith))

  wrote-attempt :
      count_where (is_completed_of job_id) db.attempts ≡ 0
      → attempt_id_of (completed_attempt db' job_id) ≡ some attempt_id
  unfolding completed_attempt latest
  wrote-attempt none_before =
      let (x, active, one) =
        keep_where-update_one (is_completed_of job_id) (is_active_attempt attempt_id job_id)
          (completed_row w.time text) (λ row h. ground arith) db.attempts none_before w.active in
      let same = (eq_iff x.id attempt_id).0 (ground arith) in rw (w.attempts, one, same) refl

module _ {Value : Type 0} (codec : Codec Value) (null : Value) where
  -- What a first completion wrote, and the text of its result.
  completed-Wrote :
      (db : Db) (job_id attempt_id : String) (v : Value) (now_ms : ℕ) {c : Completion Value}
      {db' : Db}
      → complete_tx codec null db job_id attempt_id v now_ms ≡ ok (c, db')
      → c.already_completed ≡ false
      → (text : String) × (codec.to_text v ≡ ok text)
        × (leb (byte_len text) max_result_bytes ≡ true)
        × Wrote job_id attempt_id text (codec.hex_digest text) db db'
  unfolding complete_tx job_row
  completed-Wrote db job_id attempt_id v now_ms h first =
      let (text, to, h1) = >>=-eq-ok (codec.to_text v) _ h in
      let (short, h2) = >>-ensure _ invalid_input _ h1 in
      (
        text,
        to,
        short,
        complete_row-Wrote codec null db (job_row db job_id) job_id attempt_id v text now_ms h2 refl
            first,
      )

  -- After a first completion of a job without a completed attempt, a completion of the job with a
  -- result whose text is printed and within the result bound, by another attempt or of another
  -- digest, is a conflict and changes nothing.
  pub complete-conflict :
      (s : Store) (job_id attempt_id other_id : String) (v u : Value) (other : String)
      (now_ms later_ms : ℕ) {c : Completion Value} {s' : Store}
      → complete_job_at codec null s job_id attempt_id v now_ms ≡ (ok c, s')
      → c.already_completed ≡ false
      → count_where (is_completed_of job_id) s.db.attempts ≡ 0
      → codec.to_text u ≡ ok other
      → byte_len other ≤ max_result_bytes
      → ((str_eq attempt_id other_id ≡ false)
          ⊎ ((text : String)
              → codec.to_text v ≡ ok text
              → str_eq (codec.hex_digest text) (codec.hex_digest other) ≡ false))
      → complete_job_at codec null s' job_id other_id u later_ms ≡ (err conflict, s')
  unfolding complete_job_at commit complete_tx complete_row repeat_tx
  complete-conflict s job_id attempt_id other_id v u other now_ms later_ms h first none_before to_u
        short_u differs =
      let (db, done, e) = commit-ok s _ h in
      let (text, to, short, w) = completed-Wrote s.db job_id attempt_id v now_ms done first in
      let job = wrote-job job_id attempt_id text (codec.hex_digest text) s.db db w in
      let attempt =
        wrote-attempt job_id attempt_id text (codec.hex_digest text) s.db db w none_before in
      let fits : leb (byte_len other) max_result_bytes ≡ true = ground (arith, short_u) in
      rw e (elim differs [
        | inl ids ↦ rw (to_u, fits, job, attempt, ids) refl
        | inr digests ↦
            let d = digests text to in
            elim (Bool-cases (str_eq attempt_id other_id)) [
              | inl same ↦ rw (to_u, fits, job, attempt, same, d) refl
              | inr ids ↦ rw (to_u, fits, job, attempt, ids) refl
            ]
      ])
