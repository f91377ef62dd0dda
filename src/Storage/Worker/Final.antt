-- ===== src/Storage/Worker/Final.antt =====
-- What a completion and an acknowledgment of a hand-off promise.
use mathlib.Core.Path.{subst}
use ascension_watchdog.Prelude.{
  ℕ, ◌≤◌, ◌≡◌, refl, String, Bool, true, false, Option, some, List, arith, inl, inr, ap, sym, ◌∙◌,
  eq_iff,
}
use ascension_watchdog.Prelude.Lists.{count_where-update_drop}
use ascension_watchdog.Error.{ok, ok-eq, some-eq}
use ascension_watchdog.Storage.Db.{Db, Store, commit}
use ascension_watchdog.Storage.Jobs.Select.{unresolved_attempts}
use ascension_watchdog.Storage.Worker.Types.{
  WorkerHandoffTuple, WorkerTerminalStatus, WorkerTerminalReceipt, WorkerTerminalRecord, HandoffRow,
  is_terminal,
}
use ascension_watchdog.Storage.Worker.Outside.{Outside}
use ascension_watchdog.Storage.Worker.Rows.{RawHandoff, terminal_from_row}
use ascension_watchdog.Storage.Worker.Queries.{handoff_row, same_tuple}
use ascension_watchdog.Storage.Worker.Claim.{is_open, open_handoffs}
use ascension_watchdog.Storage.Worker.Dispatch.{is_handoff_in, current_handoff}
use ascension_watchdog.Storage.Worker.Complete.{
  TerminalAuthority, original_incarnation, WorkerCompletion, is_executing, terminal_state_of,
  finished_handoff, repeat_receipt, finish_current, complete_handoff_tx,
  complete_worker_handoff_with_authority_at,
}
use ascension_watchdog.Storage.Worker.Life.{finished, Evidence, stage, evidence_of}
use ascension_watchdog.Storage.Worker.Endings.Writes.{Finishes}
use ascension_watchdog.Storage.Worker.Endings.Completions.{Completes}
use ascension_watchdog.Storage.Worker.Counts.{Finishes-Ends}
use ascension_watchdog.Storage.Worker.Exclusive.{IsExclusive}
use ascension_watchdog.Storage.Worker.Lives.{Line, Line-refl, worker_run-Line}
use ascension_watchdog.Storage.Worker.Loaded.{Loads, Decodes, current_handoff-Loads, reads-current}
use ascension_watchdog.Storage.Worker.Repeat.{
  evidence, complete_by, Final, complete_by-Answers, Answers-Final, over_state, Course-IsOver,
  finished_row,
}
use ascension_watchdog.Storage.Worker.Cycle.{WorkerOp, worker_run}

executing_open :
    (id : String) (r : HandoffRow) → is_handoff_in id is_executing r ≡ true → is_open r.state ≡ true
executing_open id r h = ground arith

closed : (status : WorkerTerminalStatus) → is_open (terminal_state_of status) ≡ false
closed WorkerTerminalStatus.completed = refl
closed WorkerTerminalStatus.failed = refl

module _ {Value Uuid : Type 0} (out : Outside Value Uuid) where
  -- The decoded receipt of a row that is over is that of every other row with its evidence.
  same_receipt :
      (a b : HandoffRow)
      → evidence_of a ≡ evidence_of b
      → terminal_from_row out a ≡ terminal_from_row out b
  unfolding terminal_from_row
  same_receipt a b e =
      rw
        (
          ap (λ (x : Evidence). x.status) e,
          ap (λ (x : Evidence). x.terminal_ref) e,
          ap (λ (x : Evidence). x.result_digest) e,
          ap (λ (x : Evidence). x.terminal_digest) e,
          ap (λ (x : Evidence). x.checkpoint_sequence) e,
        )
        refl

  -- A hand-off loaded where it is final.
  Final-loaded :
      (tuple : WorkerHandoffTuple) (digest result_digest : String) (s s' : Store) (row : HandoffRow)
      (raw : RawHandoff Value)
      → (f : Final out tuple digest result_digest s) → handoff_row s'.db tuple.handoff_id ≡ some row
      → Line f.row row
      → Loads out s' tuple raw
      → (is_terminal raw.state ≡ true) × (raw.terminal ≡ some f.terminal)
  Final-loaded tuple digest result_digest s s' row raw f found line loads =
      let (over, same) =
        over_state row.state (evidence_of f.row) (evidence_of row)
          (Course-IsOver (evidence_of f.row) line.path f.over) in
      let decodes : Decodes out row raw =
        subst (λ (r : HandoffRow). Decodes out r raw) (some-eq (sym loads.found ∙ found))
          loads.decodes in
      let stored : ◌≡◌ {A = Option WorkerTerminalRecord} (some f.terminal) decodes.terminal =
        sym (ok-eq (sym f.read ∙ sym (same_receipt row f.row same) ∙ decodes.read)) in
      (
        ap (λ (r : RawHandoff Value). is_terminal r.state) decodes.is ∙ over,
        ap (λ (r : RawHandoff Value). r.terminal) decodes.is ∙ sym stored,
      )

  -- After an answered completion, at the end of every history of calls, every completion of the
  -- same tuple that is answered has the digest of the first answer, is a repeat, and changes
  -- nothing, whatever its receipt and its authority.
  pub complete-final :
      (null : Value) (s : Store) (tuple : WorkerHandoffTuple) (receipt : WorkerTerminalReceipt)
      (authority : TerminalAuthority) (now_ms : ℕ) (ops : List (WorkerOp Value))
      (other : WorkerTerminalReceipt) (by : TerminalAuthority) (again_ms : ℕ)
      {c c' : WorkerCompletion Value} {s' s'' : Store}
      → complete_by out s tuple receipt authority now_ms ≡ (ok c, s')
      → complete_by out (worker_run out null s' ops) tuple other by again_ms ≡ (ok c', s'')
      → (c'.terminal_digest ≡ c.terminal_digest)
        × (c'.already_completed ≡ true)
        × (s'' ≡ worker_run out null s' ops)
  complete-final null s tuple receipt authority now_ms ops other by again_ms {c = c} {c' = c'}
        {s' = s'} {s'' = s''} h h' =
      let f =
        Answers-Final out s tuple receipt authority c s'
          (complete_by-Answers out s tuple receipt authority now_ms h) in
      let later = worker_run out null s' ops in
      let (row, found, line) = worker_run-Line out null s' ops tuple.handoff_id f.found in
      let a = complete_by-Answers out later tuple other by again_ms h' in
      let (over, stored) =
        Final-loaded tuple c.terminal_digest receipt.result_digest s' later row a.completes.current
          f found line (current_handoff-Loads out later tuple a.completes.loaded) in
      elim a.completes.ended [
        | inl (_, already, db_is, (t, is, digests, _)) ↦ (
          sym ((eq_iff t.terminal_digest c'.terminal_digest).0 digests)
              ∙ ap (λ (x : WorkerTerminalRecord). x.terminal_digest) (some-eq (sym is ∙ stored))
              ∙ f.digests,
          already,
          a.store ∙ ap (λ d. record later { db = d }) db_is,
        )
        | inr (pending, _, _, _, _) ↦ cc (sym pending ∙ over)
      ]

  -- A stored receipt is answered to a repeat.
  repeats :
      (db : Db) (terminal : Option WorkerTerminalRecord) (receipt : WorkerTerminalReceipt)
      (digest : String) (t : WorkerTerminalRecord)
      → terminal ≡ some t
      → t.terminal_digest ≡ digest
      → t.result_digest ≡ receipt.result_digest
      → repeat_receipt out db terminal receipt digest ≡ ok (true, db)
  unfolding repeat_receipt
  repeats db terminal receipt digest t is digests results =
      rw
        (
          is,
          (eq_iff t.terminal_digest digest).1 digests,
          (eq_iff t.result_digest receipt.result_digest).1 results,
        )
        refl

  finish_current-again :
      (db : Db) (raw : RawHandoff Value) (tuple : WorkerHandoffTuple)
      (receipt : WorkerTerminalReceipt) (authority : TerminalAuthority)
      (text compact_digest digest : String) (now_ms : ℕ)
      → is_terminal raw.state ≡ true
      → repeat_receipt out db raw.terminal receipt digest ≡ ok (true, db)
      → finish_current out db raw tuple receipt authority text compact_digest digest now_ms
        ≡ ok (true, db)
  unfolding finish_current
  finish_current-again db raw tuple receipt authority text compact_digest digest now_ms over same =
      rw (over, same) refl

  complete_tx-again :
      (s s' : Store) (tuple : WorkerHandoffTuple) (receipt : WorkerTerminalReceipt)
      (authority : TerminalAuthority) (digest : String) (already : Bool) (db : Db)
      (raw : RawHandoff Value) (again_ms : ℕ)
      → (c : Completes out s tuple receipt authority digest already db)
      → current_handoff out s' tuple ≡ ok raw
      → finish_current out s'.db raw tuple receipt original_incarnation c.text c.compact_digest
          digest again_ms
        ≡ ok (true, s'.db)
      → complete_handoff_tx out s' tuple receipt original_incarnation again_ms
        ≡ ok ((digest, true), s'.db)
  unfolding complete_handoff_tx
  complete_tx-again s s' tuple receipt authority digest already db raw again_ms c loaded done =
      rw (c.valid_tuple, c.valid_receipt, c.compact, loaded, c.digested, done) refl

  -- An answered completion is answered again to the same receipt under the original authority, at
  -- once and whatever the time: as a repeat, with the same digest and hand-off, and the store
  -- unchanged.
  pub complete-again :
      (s : Store) (tuple : WorkerHandoffTuple) (receipt : WorkerTerminalReceipt)
      (authority : TerminalAuthority) (now_ms again_ms : ℕ) {c : WorkerCompletion Value}
      {s' : Store}
      → complete_by out s tuple receipt authority now_ms ≡ (ok c, s')
      → complete_by out s' tuple receipt original_incarnation again_ms
        ≡ (ok (record c { already_completed = true }), s')
  unfolding complete_worker_handoff_with_authority_at commit
  complete-again s tuple receipt authority now_ms again_ms {c = c} {s' = s'} h =
      let a = complete_by-Answers out s tuple receipt authority now_ms h in
      let f = Answers-Final out s tuple receipt authority c s' a in
      let (raw, loaded) = reads-current out s' tuple a.read (λ other e.
        subst (λ (r : HandoffRow). same_tuple r.tuple tuple ≡ true) (some-eq (sym f.found ∙ e))
          f.matches) in
      let (over, stored) =
        Final-loaded tuple c.terminal_digest receipt.result_digest s' s' f.row raw f f.found
          (Line-refl f.row) (current_handoff-Loads out s' tuple loaded) in
      let done =
        complete_tx-again s s' tuple receipt authority c.terminal_digest c.already_completed s'.db
          raw again_ms a.completes loaded
          (finish_current-again s'.db raw tuple receipt original_incarnation a.completes.text
            a.completes.compact_digest c.terminal_digest again_ms over
            (repeats s'.db raw.terminal receipt c.terminal_digest f.terminal stored f.digests
              f.results)) in
      rw (done, a.read) refl

  -- The open hand-off that a completion finishes was the only one.
  none_open :
      (db : Db) (tuple : WorkerHandoffTuple) (receipt : WorkerTerminalReceipt)
      (text compact_digest digest : String) (db' : Db)
      → open_handoffs db ≤ 1
      → Finishes db tuple receipt text compact_digest digest db'
      → open_handoffs db' ≡ 0
  none_open db tuple receipt text compact_digest digest db' one f =
      rw (ap (λ (d : Db). d.worker_handoffs) f.rest) (
        ground (
          arith,
          one,
          f.one_handoff,
          count_where-update_drop (is_handoff_in tuple.handoff_id is_executing)
              (λ r. is_open r.state)
              (finished_handoff receipt receipt.checkpoint_sequence digest text f.now)
              (λ r h. executing_open tuple.handoff_id r h) (λ r h. closed receipt.status)
              db.worker_handoffs,
        ))

  -- A fresh completion in an exclusive store settles it: no attempt is unresolved and no hand-off
  -- is open after it, and the row of the hand-off is finished with the evidence of the receipt and
  -- the digest of the answer.
  pub complete-settles :
      (s : Store) (tuple : WorkerHandoffTuple) (receipt : WorkerTerminalReceipt)
      (authority : TerminalAuthority) (now_ms : ℕ) {c : WorkerCompletion Value} {s' : Store}
      → IsExclusive s
      → complete_by out s tuple receipt authority now_ms ≡ (ok c, s')
      → c.already_completed ≡ false
      → (unresolved_attempts s'.db ≡ 0)
        × (open_handoffs s'.db ≡ 0)
        × ((row : HandoffRow) × (text : String) × (handoff_row s'.db tuple.handoff_id ≡ some row)
            × (stage row ≡ finished (evidence receipt c.terminal_digest text)))
  complete-settles s tuple receipt authority now_ms {c = c} {s' = s'} exclusive h fresh =
      let a = complete_by-Answers out s tuple receipt authority now_ms h in
      let loads = current_handoff-Loads out s tuple a.completes.loaded in
      elim a.completes.ended [
        | inl (_, already, _, _) ↦ cc (sym fresh ∙ already)
        | inr (_, _, executing, _, f) ↦
            let ends =
              Finishes-Ends s.db tuple receipt a.completes.text a.completes.compact_digest
                c.terminal_digest f in
            let (row, found, at, _, _) =
              finished_row out s tuple receipt a.completes.text a.completes.compact_digest
                c.terminal_digest a.completes.current loads executing f in
            (
              omega (arith, exclusive.single, ends.unresolved),
              none_open s.db tuple receipt a.completes.text a.completes.compact_digest
                  c.terminal_digest s'.db exclusive.one_open f,
              (row, a.completes.text, found, at),
            )
      ]
