-- ===== src/Storage/Worker/Endings/Deliveries.antt =====
-- What a successful acknowledgment checked, and the state that it wrote.
use mathlib.Core.Path.{subst}
use ascension_watchdog.Prelude.{
  ℕ, ◌≡◌, ◌⊎◌, refl, String, Bool, true, false, Option, none, some, inl, inr, ap, sym, ◌∙◌, str_eq,
}
use ascension_watchdog.Error.{Result, ok, conflict, >>=-eq-ok, >>-ensure, if-cases, ok-eq}
use ascension_watchdog.Storage.Db.{Db, Store}
use ascension_watchdog.Storage.Metadata.{sqlite_timestamp, insert_audit_tx}
use ascension_watchdog.Storage.Jobs.Outcomes.{state-eq, answer-eq}
use ascension_watchdog.Storage.Worker.Types.{
  WorkerHandoffTuple, WorkerTerminalRecord, WorkerAcknowledgment,
}
use ascension_watchdog.Storage.Worker.Outside.{Outside}
use ascension_watchdog.Storage.Worker.Validate.{required, validate_tuple, validate_digest_value}
use ascension_watchdog.Storage.Worker.Rows.{RawHandoff}
use ascension_watchdog.Storage.Worker.Queries.{validate_handoff_transition_time}
use ascension_watchdog.Storage.Worker.Dispatch.{update_handoff, current_handoff}
use ascension_watchdog.Storage.Worker.Complete.{TerminalAuthority, check_recovery, check_original}
use ascension_watchdog.Storage.Worker.Acknowledge.{
  is_acknowledged, is_finished, is_awaiting, is_awaiting_now, current_ack_intent,
  acknowledged_handoff, acknowledgment, acknowledge_current, acknowledge_tx,
}
use ascension_watchdog.Storage.Worker.Inversions.{Updates, updates}

pub required-inv : {A : Type 0} (o : Option A) {a : A} → required o ≡ ok a → o ≡ some a
required-inv none h = cc
required-inv (some b) h = ap (λ x. some x) (sym (ok-eq h))

module _ {Value Uuid : Type 0} (out : Outside Value Uuid) where
  -- An acknowledged hand-off is answered as it is; a finished one is acknowledged.
  abbrev pub Delivered :
      Db → RawHandoff Value → WorkerHandoffTuple → String → WorkerAcknowledgment → Db → Type 0
  Delivered db current tuple digest answer db' =
      ((is_acknowledged current.state ≡ true)
        × (answer ≡ acknowledgment tuple digest true)
        × (db' ≡ db))
      ⊎ ((is_finished current.state ≡ true)
          × (answer ≡ acknowledgment tuple digest false)
          × (current_ack_intent db tuple.handoff_id ≡ ok true)
          × ((now : ℕ) × Updates (is_awaiting tuple.handoff_id) (acknowledged_handoff now) db db'))

  awaits :
      (finished : Bool) (intent : Result Bool) {awaiting : Bool}
      → is_awaiting_now finished intent ≡ ok awaiting
      → awaiting ≡ true
      → (finished ≡ true) × (intent ≡ ok true)
  awaits true intent h t = (refl, h ∙ ap (λ a. ok a) t)
  awaits false intent h t = cc (sym (ok-eq h) ∙ t)

  module _ (db : Db) (current : RawHandoff Value) (tuple : WorkerHandoffTuple) (digest : String)
      (authority : TerminalAuthority) (now_ms : ℕ) {answer : WorkerAcknowledgment} {db' : Db} where
    acknowledge_current-Delivered :
        acknowledge_current out db current tuple digest authority now_ms ≡ ok (answer, db')
        → Delivered db current tuple digest answer db'
    unfolding acknowledge_current
    acknowledge_current-Delivered h = elim (if-cases (is_acknowledged current.state) _ _ h) [
      | inl (over, e) ↦ inl (over, answer-eq _ answer db db' e, state-eq _ answer db db' e)
      | inr (pending, h1) ↦
          let (awaiting, a, h2) =
            >>=-eq-ok
              (is_awaiting_now (is_finished current.state) (current_ack_intent db tuple.handoff_id))
              _ h1 in
          let (now_awaiting, h3) = >>-ensure awaiting conflict _ h2 in
          let (_, _, h4) = >>=-eq-ok (check_original out db current authority) _ h3 in
          let (_, _, h5) =
            >>=-eq-ok (validate_handoff_transition_time out current now_ms "acknowledgment") _ h4 in
          let (now, _, h6) = >>=-eq-ok (sqlite_timestamp now_ms) _ h5 in
          let (updated, u, h7) =
            >>=-eq-ok (update_handoff db (is_awaiting tuple.handoff_id) (acknowledged_handoff now))
              _ h6 in
          let (written, w, e) =
            >>=-eq-ok
              (insert_audit_tx updated "worker_handoff_acknowledged" tuple.handoff_id now_ms) _
              h7 in
          let (over, intent) =
            awaits (is_finished current.state) (current_ack_intent db tuple.handoff_id) a
              now_awaiting in
          inr (
            over,
            answer-eq _ answer written db' e,
            intent,
            (
              now,
              subst
                  (λ (d : Db).
                    Updates (is_awaiting tuple.handoff_id) (acknowledged_handoff now) db d)
                  (sym (state-eq _ answer written db' e))
                  (updates _ _ db updated written _ _ now_ms u w),
            ),
          )
    ]

  pub record Acknowledges (s : Store) (tuple : WorkerHandoffTuple) (digest : String)
      (answer : WorkerAcknowledgment) (db : Db) : Type 0 where
    pub current : RawHandoff Value
    pub loaded : current_handoff out s tuple ≡ ok current
    pub terminal : WorkerTerminalRecord
    pub recorded : current.terminal ≡ some terminal
    pub matches : str_eq terminal.terminal_digest digest ≡ true
    pub delivered : Delivered s.db current tuple digest answer db

  pub acknowledge_tx-Acknowledges :
      (s : Store) (tuple : WorkerHandoffTuple) (digest : String) (authority : TerminalAuthority)
      (now_ms : ℕ) {answer : WorkerAcknowledgment} {db : Db}
      → acknowledge_tx out s tuple digest authority now_ms ≡ ok (answer, db)
      → Acknowledges s tuple digest answer db
  unfolding acknowledge_tx
  acknowledge_tx-Acknowledges s tuple digest authority now_ms h =
      let (_, _, h1) = >>=-eq-ok (validate_tuple out tuple) _ h in
      let (_, _, h2) = >>=-eq-ok (validate_digest_value digest) _ h1 in
      let (current, loaded, h3) = >>=-eq-ok (current_handoff out s tuple) _ h2 in
      let (terminal, recorded, h4) = >>=-eq-ok (required current.terminal) _ h3 in
      let (matches, h5) = >>-ensure (str_eq terminal.terminal_digest digest) conflict _ h4 in
      let (_, _, h6) = >>=-eq-ok (check_recovery out s.db current authority) _ h5 in
      record {
        current = current;
        loaded = loaded;
        terminal = terminal;
        recorded = required-inv current.terminal recorded;
        matches = matches;
        delivered = acknowledge_current-Delivered s.db current tuple digest authority now_ms h6;
      }
