-- ===== src/Storage/Worker/Endings/Completions.antt =====
-- What a successful completion checked, and the state that it wrote.
use mathlib.Core.Path.{subst}
use ascension_watchdog.Prelude.{
  ℕ, ◌≡◌, ◌⊎◌, refl, String, Bool, true, false, ◌&&◌, Option, none, some, arith, inl, inr, ap, sym,
  ◌∙◌, str_eq,
}
use ascension_watchdog.Error.{ok, err, conflict, >>=-eq-ok, >>-ensure, if-cases}
use ascension_watchdog.Storage.Db.{Db, Store}
use ascension_watchdog.Storage.Jobs.Outcomes.{state-eq, answer-eq}
use ascension_watchdog.Storage.Worker.Types.{
  WorkerHandoffTuple, WorkerTerminalReceipt, WorkerTerminalRecord, is_terminal,
}
use ascension_watchdog.Storage.Worker.Outside.{Outside}
use ascension_watchdog.Storage.Worker.Validate.{validate_tuple}
use ascension_watchdog.Storage.Worker.Rows.{RawHandoff, terminal_digest, compact_terminal_result}
use ascension_watchdog.Storage.Worker.Queries.{validate_handoff_transition_time}
use ascension_watchdog.Storage.Worker.Dispatch.{current_handoff}
use ascension_watchdog.Storage.Worker.Complete.{
  TerminalAuthority, is_executing, finish_writes, check_recovery, check_original, repeat_receipt,
  finish_current, complete_handoff_tx, validate_terminal_receipt,
}
use ascension_watchdog.Storage.Worker.Endings.Writes.{Finishes, finish_writes-inv}

both : (x y : Bool) → (x && y) ≡ true → (x ≡ true) × (y ≡ true)
both x y h = ground arith

module _ {Value Uuid : Type 0} (out : Outside Value Uuid) where
  -- A stored receipt is that of a repeat.
  abbrev pub Repeats : Option WorkerTerminalRecord → WorkerTerminalReceipt → String → Type 0
  Repeats terminal receipt digest =
      (t : WorkerTerminalRecord) × (terminal ≡ some t)
      × (str_eq t.terminal_digest digest ≡ true)
      × (str_eq t.result_digest receipt.result_digest ≡ true)

  -- A terminal hand-off is answered as it is; another is finished.
  abbrev pub Ended :
      Db
      → RawHandoff Value
      → WorkerHandoffTuple
      → WorkerTerminalReceipt
      → TerminalAuthority
      → String
      → String
      → String
      → Bool
      → Db
      → Type 0
  Ended db current tuple receipt authority text compact_digest digest already db' =
      ((is_terminal current.state ≡ true)
        × (already ≡ true)
        × (db' ≡ db)
        × Repeats current.terminal receipt digest)
      ⊎ ((is_terminal current.state ≡ false)
          × (already ≡ false)
          × (is_executing current.state ≡ true)
          × (check_original out db current authority ≡ ok tt)
          × Finishes db tuple receipt text compact_digest digest db')

  repeat_receipt-inv :
      (db : Db) (terminal : Option WorkerTerminalRecord) (receipt : WorkerTerminalReceipt)
      (digest : String) {already : Bool} {db' : Db}
      → repeat_receipt out db terminal receipt digest ≡ ok (already, db')
      → (already ≡ true) × (db' ≡ db) × Repeats terminal receipt digest
  unfolding repeat_receipt
  repeat_receipt-inv db none receipt digest h = cc
  repeat_receipt-inv db (some existing) receipt digest {already = already} {db' = db'} h =
      elim (if-cases
        (str_eq existing.terminal_digest digest
          && str_eq existing.result_digest receipt.result_digest)
        (ok (true, db)) (err conflict) h) [
          | inl (same, e) ↦
              let (digests, results) =
                both (str_eq existing.terminal_digest digest)
                  (str_eq existing.result_digest receipt.result_digest) same in
              (
                answer-eq true already db db' e,
                state-eq true already db db' e,
                (existing, refl, digests, results),
              )
          | inr (_, e) ↦ cc
        ]

  module _ (db : Db) (current : RawHandoff Value) (tuple : WorkerHandoffTuple)
      (receipt : WorkerTerminalReceipt) (authority : TerminalAuthority)
      (text compact_digest digest : String) (now_ms : ℕ) {already : Bool} {db' : Db} where
    finish_current-Ended :
        finish_current out db current tuple receipt authority text compact_digest digest now_ms
          ≡ ok (already, db')
        → Ended db current tuple receipt authority text compact_digest digest already db'
    unfolding finish_current
    finish_current-Ended h = elim (if-cases (is_terminal current.state) _ _ h) [
      | inl (over, again) ↦
          let (repeated, kept, receipts) =
            repeat_receipt-inv db current.terminal receipt digest again in
          inl (over, repeated, kept, receipts)
      | inr (pending, h1) ↦
          let (_, original, h2) = >>=-eq-ok (check_original out db current authority) _ h1 in
          let (executing, h3) = >>-ensure (is_executing current.state) conflict _ h2 in
          let (_, _, h4) =
            >>=-eq-ok (validate_handoff_transition_time out current now_ms "terminal") _ h3 in
          let (written, w, e) =
            >>=-eq-ok (finish_writes db tuple receipt text compact_digest digest now_ms) _ h4 in
          inr (
            pending,
            answer-eq false already written db' e,
            executing,
            original,
            subst (Finishes db tuple receipt text compact_digest digest)
                (sym (state-eq false already written db' e))
                (finish_writes-inv db tuple receipt text compact_digest digest now_ms w),
          )
    ]

  pub record Completes (s : Store) (tuple : WorkerHandoffTuple) (receipt : WorkerTerminalReceipt)
      (authority : TerminalAuthority) (digest : String) (already : Bool) (db : Db) : Type 0 where
    pub valid_tuple : validate_tuple out tuple ≡ ok tt
    pub valid_receipt : validate_terminal_receipt receipt ≡ ok tt
    pub text : String
    pub compact_digest : String
    pub compact : compact_terminal_result out receipt ≡ ok (text, compact_digest)
    pub current : RawHandoff Value
    pub loaded : current_handoff out s tuple ≡ ok current
    pub authorized : check_recovery out s.db current authority ≡ ok tt
    pub digested : terminal_digest out tuple receipt ≡ ok digest
    pub ended : Ended s.db current tuple receipt authority text compact_digest digest already db

  pub complete_handoff_tx-Completes :
      (s : Store) (tuple : WorkerHandoffTuple) (receipt : WorkerTerminalReceipt)
      (authority : TerminalAuthority) (now_ms : ℕ) {digest : String} {already : Bool} {db : Db}
      → complete_handoff_tx out s tuple receipt authority now_ms ≡ ok ((digest, already), db)
      → Completes s tuple receipt authority digest already db
  unfolding complete_handoff_tx
  complete_handoff_tx-Completes s tuple receipt authority now_ms {digest = digest}
        {already = already} {db = db} h =
      let (_, valid_tuple, h1) = >>=-eq-ok (validate_tuple out tuple) _ h in
      let (_, valid_receipt, h2) = >>=-eq-ok (validate_terminal_receipt receipt) _ h1 in
      let ((text, compact_digest), compact, h3) =
        >>=-eq-ok (compact_terminal_result out receipt) _ h2 in
      let (current, loaded, h4) = >>=-eq-ok (current_handoff out s tuple) _ h3 in
      let (_, authorized, h5) = >>=-eq-ok (check_recovery out s.db current authority) _ h4 in
      let (made, digested, h6) = >>=-eq-ok (terminal_digest out tuple receipt) _ h5 in
      let ((already', db'), finished, e) =
        >>=-eq-ok
          (finish_current out s.db current tuple receipt authority text compact_digest made now_ms)
          _ h6 in
      let answer_is = sym (answer-eq (made, already') (digest, already) db' db e) in
      let made_is : made ≡ digest = ap (λ p. p.0) answer_is in
      let already_is : already' ≡ already = ap (λ p. p.1) answer_is in
      let db_is = sym (state-eq (made, already') (digest, already) db' db e) in
      record {
        valid_tuple = valid_tuple;
        valid_receipt = valid_receipt;
        text = text;
        compact_digest = compact_digest;
        compact = compact;
        current = current;
        loaded = loaded;
        authorized = authorized;
        digested = digested ∙ ap (λ d. ok d) made_is;
        ended =
            subst (λ d. Ended s.db current tuple receipt authority text compact_digest d already db)
              made_is
              (subst (λ a. Ended s.db current tuple receipt authority text compact_digest made a db)
                already_is
                (subst
                  (λ d.
                    Ended s.db current tuple receipt authority text compact_digest made already' d)
                  db_is
                  (finish_current-Ended s.db current tuple receipt authority text compact_digest
                    made now_ms finished)));
      }
