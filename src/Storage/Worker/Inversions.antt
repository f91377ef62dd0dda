-- ===== src/Storage/Worker/Inversions.antt =====
-- What each successful transaction of the hand-off checked, and the state that it wrote.
use mathlib.Core.Path.{subst}
use ascension_watchdog.Prelude.{ℕ, ◌≡◌, ◌⊎◌, String, Bool, true, arith, inl, inr, ap, sym, ◌∙◌}
use ascension_watchdog.Prelude.Tests.{◌==◌}
use ascension_watchdog.Prelude.Lists.{count_where, update_where}
use ascension_watchdog.Error.{ok, conflict, >>=-eq-ok, >>-ensure}
use ascension_watchdog.Storage.Db.{Db, Store}
use ascension_watchdog.Storage.Metadata.{sqlite_timestamp, insert_audit_tx}
use ascension_watchdog.Storage.Metadata.Ledger.{insert_audit_tx-only}
use ascension_watchdog.Storage.Jobs.Outcomes.{state-eq}
use ascension_watchdog.Storage.Worker.Types.{WorkerHandoffState, WorkerHandoffTuple, HandoffRow}
use ascension_watchdog.Storage.Worker.Outside.{Outside}
use ascension_watchdog.Storage.Worker.Validate.{validate_tuple}
use ascension_watchdog.Storage.Worker.Rows.{RawHandoff}
use ascension_watchdog.Storage.Worker.Queries.{
  validate_handoff_transition_time, validate_dispatch_control_tx,
  validate_current_worker_incarnation_tx,
}
use ascension_watchdog.Storage.Worker.Dispatch.{
  is_prepared, is_dispatched, is_handoff_in, update_handoff, dispatched_handoff, admitted_handoff,
  current_handoff, mark_dispatched_tx, admit_current, mark_admitted_tx,
}

pub update_handoff-inv :
    (db : Db) (test : HandoffRow → Bool) (change : HandoffRow → HandoffRow) {db' : Db}
    → update_handoff db test change ≡ ok db'
    → ((count_where test db.worker_handoffs == 1) ≡ true)
      × (db' ≡ record db { worker_handoffs = update_where test change db.worker_handoffs })
unfolding update_handoff
update_handoff-inv db test change h = ground arith

-- One hand-off is updated, and an audit is written.
pub record Updates (test : HandoffRow → Bool) (change : HandoffRow → HandoffRow) (db db' : Db)
    : Type 0 where
  pub one : (count_where test db.worker_handoffs == 1) ≡ true
  pub rest : db' ≡ record db {
    worker_handoffs = update_where test change db.worker_handoffs;
    audit = db'.audit;
  }

pub updates :
    (test : HandoffRow → Bool) (change : HandoffRow → HandoffRow) (db db1 db' : Db)
    (action detail : String) (now_ms : ℕ)
    → update_handoff db test change ≡ ok db1
    → insert_audit_tx db1 action detail now_ms ≡ ok db'
    → Updates test change db db'
updates test change db db1 db' action detail now_ms u a =
    let (one, is) = update_handoff-inv db test change u in
    record {
      one = one;
      rest =
          insert_audit_tx-only db1 action detail now_ms a
          ∙ ap (λ (d : Db). record d { audit = db'.audit }) is;
    }

module _ {Value Uuid : Type 0} (out : Outside Value Uuid) where
  pub record Dispatches (s : Store) (tuple : WorkerHandoffTuple) (db : Db) : Type 0 where
    pub current : RawHandoff Value
    pub loaded : current_handoff out s tuple ≡ ok current
    pub was : is_prepared current.state ≡ true
    pub allowed : validate_dispatch_control_tx out s.db current ≡ ok tt
    pub now : ℕ
    pub writes :
        Updates (is_handoff_in tuple.handoff_id is_prepared) (dispatched_handoff now) s.db db

  pub mark_dispatched_tx-inv :
      (s : Store) (tuple : WorkerHandoffTuple) (now_ms : ℕ) {db : Db}
      → mark_dispatched_tx out s tuple now_ms ≡ ok (tt, db)
      → Dispatches s tuple db
  unfolding mark_dispatched_tx
  mark_dispatched_tx-inv s tuple now_ms {db = db} h =
      let (_, _, h1) = >>=-eq-ok (validate_tuple out tuple) _ h in
      let (current, loaded, h2) = >>=-eq-ok (current_handoff out s tuple) _ h1 in
      let (was, h3) = >>-ensure (is_prepared current.state) conflict _ h2 in
      let (_, _, h4) =
        >>=-eq-ok (validate_handoff_transition_time out current now_ms "dispatch") _ h3 in
      let (_, allowed, h5) = >>=-eq-ok (validate_dispatch_control_tx out s.db current) _ h4 in
      let (now, _, h6) = >>=-eq-ok (sqlite_timestamp now_ms) _ h5 in
      let (updated, u, h7) =
        >>=-eq-ok
          (update_handoff s.db (is_handoff_in tuple.handoff_id is_prepared)
            (dispatched_handoff now))
          _ h6 in
      let (written, a, e) =
        >>=-eq-ok
          (insert_audit_tx updated "worker_handoff_may_have_been_dispatched" tuple.handoff_id
            now_ms)
          _ h7 in
      record {
        current = current;
        loaded = loaded;
        was = was;
        allowed = allowed;
        now = now;
        writes =
            subst
              (λ (d : Db).
                Updates (is_handoff_in tuple.handoff_id is_prepared) (dispatched_handoff now) s.db
                  d)
              (sym (state-eq tt tt written db e)) (updates _ _ s.db updated written _ _ now_ms u a);
      }

  abbrev pub Admits : String → Db → Db → Type 0
  Admits id db db' =
      (now : ℕ) × Updates (is_handoff_in id is_dispatched) (admitted_handoff now) db db'

  admit_current-cases :
      (db : Db) (current : RawHandoff Value) (state : WorkerHandoffState) (id : String) (now_ms : ℕ)
      {db' : Db}
      → admit_current out db current state id now_ms ≡ ok (tt, db')
      → (db' ≡ db) ⊎ Admits id db db'
  unfolding admit_current
  admit_current-cases db current WorkerHandoffState.admitted id now_ms {db' = db'} h =
      inl (state-eq tt tt db db' h)
  admit_current-cases db current WorkerHandoffState.may_have_been_dispatched id now_ms {db' = db'}
        h =
      let (_, _, h4) =
        >>=-eq-ok (validate_handoff_transition_time out current now_ms "admission") _ h in
      let (now, _, h6) = >>=-eq-ok (sqlite_timestamp now_ms) _ h4 in
      let (updated, u, h7) =
        >>=-eq-ok (update_handoff db (is_handoff_in id is_dispatched) (admitted_handoff now)) _
          h6 in
      let (written, a, e) =
        >>=-eq-ok (insert_audit_tx updated "worker_handoff_admitted" id now_ms) _ h7 in
      inr (
        now,
        subst (λ (d : Db). Updates (is_handoff_in id is_dispatched) (admitted_handoff now) db d)
            (sym (state-eq tt tt written db' e)) (updates _ _ db updated written _ _ now_ms u a),
      )
  admit_current-cases db current WorkerHandoffState.prepared id now_ms h = cc
  admit_current-cases db current WorkerHandoffState.completed id now_ms h = cc
  admit_current-cases db current WorkerHandoffState.failed id now_ms h = cc
  admit_current-cases db current WorkerHandoffState.acknowledged id now_ms h = cc
  admit_current-cases db current WorkerHandoffState.rejected id now_ms h = cc

  pub mark_admitted_tx-cases :
      (s : Store) (tuple : WorkerHandoffTuple) (now_ms : ℕ) {db : Db}
      → mark_admitted_tx out s tuple now_ms ≡ ok (tt, db)
      → (db ≡ s.db) ⊎ Admits tuple.handoff_id s.db db
  unfolding mark_admitted_tx
  mark_admitted_tx-cases s tuple now_ms h =
      let (_, _, h1) = >>=-eq-ok (validate_tuple out tuple) _ h in
      let (current, _, h2) = >>=-eq-ok (current_handoff out s tuple) _ h1 in
      let (_, _, h3) = >>=-eq-ok (validate_current_worker_incarnation_tx out s.db current) _ h2 in
      admit_current-cases s.db current current.state tuple.handoff_id now_ms h3
