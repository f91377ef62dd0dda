-- ===== src/Storage/Worker/Repeat.antt =====
-- A completion is final: it is answered again to a repeat, and no other outcome is ever accepted.
use mathlib.Core.Path.{subst}
use ascension_watchdog.Prelude.{
  ℕ, ◌≡◌, ◌⊎◌, refl, String, Bool, true, some, inl, inr, ap, sym, ◌∙◌, eq_iff,
}
use ascension_watchdog.Prelude.Updates.{find_where-update, find_where-holds}
use ascension_watchdog.Error.{Result, ok, err, ok-eq, some-eq, >>=-eq-ok}
use ascension_watchdog.Storage.Db.{Db, Store, commit-ok}
use ascension_watchdog.Storage.Worker.Types.{
  WorkerHandoffState, WorkerHandoffTuple, WorkerTerminalStatus, WorkerTerminalReceipt,
  WorkerTerminalRecord, HandoffRow, is_terminal,
}
use ascension_watchdog.Storage.Worker.Outside.{Outside}
use ascension_watchdog.Storage.Worker.Validate.{required}
use ascension_watchdog.Storage.Worker.Rows.{RawHandoff, terminal_from_row}
use ascension_watchdog.Storage.Worker.Queries.{
  WorkerHandoff, is_handoff, handoff_row, same_tuple, worker_handoff,
}
use ascension_watchdog.Storage.Worker.Dispatch.{is_handoff_in}
use ascension_watchdog.Storage.Worker.Complete.{
  TerminalAuthority, WorkerCompletion, is_executing, terminal_state_of, finished_handoff,
  then_completion, complete_worker_handoff_with_authority_at,
}
use ascension_watchdog.Storage.Worker.Life.{
  Stage, finished, delivered, Evidence, Step, dispatches, admits, finishes_sent, finishes_taken,
  delivers, Course, stays, goes, stage, stage_in, evidence_of,
}
use ascension_watchdog.Storage.Worker.Endings.Writes.{Finishes}
use ascension_watchdog.Storage.Worker.Endings.Completions.{
  Repeats, Completes, complete_handoff_tx-Completes,
}
use ascension_watchdog.Storage.Worker.Endings.Deliveries.{required-inv}
use ascension_watchdog.Storage.Worker.Loaded.{
  Loads, Decodes, current_handoff-Loads, reads-current, Decodes-receipt,
}

-- The evidence of a receipt.
abbrev pub evidence : WorkerTerminalReceipt → String → String → Evidence
evidence receipt digest text = record {
  status = some receipt.status;
  checkpoint_sequence = some receipt.checkpoint_sequence;
  terminal_ref = some receipt.terminal_ref;
  result_digest = some receipt.result_digest;
  terminal_digest = some digest;
  terminal_result = some text;
}

-- A stage that is over, with its evidence.
abbrev pub IsOver : Evidence → Stage → Type 0
IsOver e st = (st ≡ finished e) ⊎ (st ≡ delivered e)

step-IsOver : {a b : Stage} (e : Evidence) → Step a b → IsOver e a → IsOver e b
step-IsOver e dispatches (inl h) = cc
step-IsOver e dispatches (inr h) = cc
step-IsOver e admits (inl h) = cc
step-IsOver e admits (inr h) = cc
step-IsOver e (finishes_sent e') (inl h) = cc
step-IsOver e (finishes_sent e') (inr h) = cc
step-IsOver e (finishes_taken e') (inl h) = cc
step-IsOver e (finishes_taken e') (inr h) = cc
step-IsOver e (delivers e') (inl h) = inr (let is : e' ≡ e = cc h in ap (λ x. delivered x) is)
step-IsOver e (delivers e') (inr h) = cc

pub Course-IsOver : {a b : Stage} (e : Evidence) → Course a b → IsOver e a → IsOver e b
Course-IsOver e stays h = h
Course-IsOver e (goes p step) h = step-IsOver e step (Course-IsOver e p h)

pub over_state :
    (st : WorkerHandoffState) (e e' : Evidence)
    → IsOver e (stage_in st e')
    → (is_terminal st ≡ true) × (e' ≡ e)
unfolding is_terminal
over_state WorkerHandoffState.completed e e' (inl h) = (refl, cc h)
over_state WorkerHandoffState.completed e e' (inr h) = cc
over_state WorkerHandoffState.failed e e' (inl h) = (refl, cc h)
over_state WorkerHandoffState.failed e e' (inr h) = cc
over_state WorkerHandoffState.acknowledged e e' (inl h) = cc
over_state WorkerHandoffState.acknowledged e e' (inr h) = (refl, cc h)
over_state WorkerHandoffState.prepared e e' (inl h) = cc
over_state WorkerHandoffState.prepared e e' (inr h) = cc
over_state WorkerHandoffState.may_have_been_dispatched e e' (inl h) = cc
over_state WorkerHandoffState.may_have_been_dispatched e e' (inr h) = cc
over_state WorkerHandoffState.admitted e e' (inl h) = cc
over_state WorkerHandoffState.admitted e e' (inr h) = cc
over_state WorkerHandoffState.rejected e e' (inl h) = cc
over_state WorkerHandoffState.rejected e e' (inr h) = cc

finished_over :
    (status : WorkerTerminalStatus) (e : Evidence)
    → stage_in (terminal_state_of status) e ≡ finished e
finished_over WorkerTerminalStatus.completed e = refl
finished_over WorkerTerminalStatus.failed e = refl

module _ {Value Uuid : Type 0} (out : Outside Value Uuid) where
  abbrev pub complete_by :
      Store
      → WorkerHandoffTuple
      → WorkerTerminalReceipt
      → TerminalAuthority
      → ℕ
      → Result (WorkerCompletion Value) × Store
  complete_by = complete_worker_handoff_with_authority_at out

  -- A completion that is answered.
  pub record Answers (s : Store) (tuple : WorkerHandoffTuple) (receipt : WorkerTerminalReceipt)
      (authority : TerminalAuthority) (c : WorkerCompletion Value) (s' : Store) : Type 0 where
    pub completes :
        Completes out s tuple receipt authority c.terminal_digest c.already_completed s'.db
    pub store : s' ≡ record s { db = s'.db }
    pub read : worker_handoff out s' tuple.handoff_id ≡ ok (some c.handoff)

  then_completion-ok :
      (id : String) (r : Result (String × Bool) × Store) {c : WorkerCompletion Value} {s : Store}
      → then_completion out id r ≡ (ok c, s)
      → (r ≡ (ok (c.terminal_digest, c.already_completed), s))
        × (worker_handoff out s id ≡ ok (some c.handoff))
  then_completion-ok id (err e, s') h = cc (ap (λ p. p.0) h)
  then_completion-ok id (ok (digest, already), s') {c = c} {s = s} h =
      let same : s' ≡ s = ap (λ p. p.1) h in
      let (found, read, h1) = >>=-eq-ok (worker_handoff out s' id) _ (ap (λ p. p.0) h) in
      let (handoff, is, e) = >>=-eq-ok (required found) _ h1 in
      let built = ok-eq e in
      (
        ap (λ t. (ok (digest, already), t)) same
            ∙ ap (λ (x : WorkerCompletion Value). (ok (x.terminal_digest, x.already_completed), s))
                (sym built),
        subst (λ t. worker_handoff out t id ≡ ok (some c.handoff)) same
            (read
              ∙ ap (λ x. ok x) (required-inv found is)
              ∙ ap (λ (x : WorkerCompletion Value). ok (some x.handoff)) (sym built)),
      )

  pub complete_by-Answers :
      (s : Store) (tuple : WorkerHandoffTuple) (receipt : WorkerTerminalReceipt)
      (authority : TerminalAuthority) (now_ms : ℕ) {c : WorkerCompletion Value} {s' : Store}
      → complete_by s tuple receipt authority now_ms ≡ (ok c, s')
      → Answers s tuple receipt authority c s'
  unfolding complete_worker_handoff_with_authority_at
  complete_by-Answers s tuple receipt authority now_ms {c = c} {s' = s'} h =
      let (committed, read) = then_completion-ok tuple.handoff_id _ h in
      let (db, done, is) = commit-ok s _ committed in
      let db_is : db ≡ s'.db = sym (ap (λ (t : Store). t.db) is) in
      record {
        completes =
            subst
              (λ d. Completes out s tuple receipt authority c.terminal_digest c.already_completed d)
              db_is (complete_handoff_tx-Completes out s tuple receipt authority now_ms done);
        store = is ∙ ap (λ d. record s { db = d }) db_is;
        read = read;
      }

  -- Where a completion was answered, the row of the hand-off is over, and its receipt is that of
  -- the answer.
  pub record Final (tuple : WorkerHandoffTuple) (digest result_digest : String) (s : Store)
      : Type 0 where
    pub row : HandoffRow
    pub found : handoff_row s.db tuple.handoff_id ≡ some row
    pub over : IsOver (evidence_of row) (stage row)
    pub terminal : WorkerTerminalRecord
    pub read : terminal_from_row out row ≡ ok (some terminal)
    pub digests : terminal.terminal_digest ≡ digest
    pub results : terminal.result_digest ≡ result_digest
    pub matches : same_tuple row.tuple tuple ≡ true

  pub terminal-IsOver :
      (st : WorkerHandoffState) (e : Evidence) → is_terminal st ≡ true → IsOver e (stage_in st e)
  unfolding is_terminal
  terminal-IsOver WorkerHandoffState.completed e h = inl refl
  terminal-IsOver WorkerHandoffState.failed e h = inl refl
  terminal-IsOver WorkerHandoffState.acknowledged e h = inr refl
  terminal-IsOver WorkerHandoffState.prepared e h = cc
  terminal-IsOver WorkerHandoffState.may_have_been_dispatched e h = cc
  terminal-IsOver WorkerHandoffState.admitted e h = cc
  terminal-IsOver WorkerHandoffState.rejected e h = cc

  -- A hand-off that was loaded where it is over.
  loaded-Final :
      (s : Store) (tuple : WorkerHandoffTuple) (receipt : WorkerTerminalReceipt) (digest : String)
      (raw : RawHandoff Value)
      → Loads out s tuple raw
      → is_terminal raw.state ≡ true
      → Repeats out raw.terminal receipt digest
      → Final tuple digest receipt.result_digest s
  loaded-Final s tuple receipt digest raw loads over (t, is, digests, results) =
      let d = loads.decodes in
      let row_over : is_terminal loads.row.state ≡ true =
        sym (ap (λ (r : RawHandoff Value). is_terminal r.state) d.is) ∙ over in
      record {
        row = loads.row;
        found = loads.found;
        over = terminal-IsOver loads.row.state (evidence_of loads.row) row_over;
        terminal = t;
        read = d.read ∙ ap (λ x. ok x) (sym (ap (λ (r : RawHandoff Value). r.terminal) d.is) ∙ is);
        digests = (eq_iff t.terminal_digest digest).0 digests;
        results = (eq_iff t.result_digest receipt.result_digest).0 results;
        matches =
            sym (ap (λ (r : RawHandoff Value). same_tuple r.tuple tuple) d.is) ∙ loads.matches;
      }

  -- The row that a fresh completion leaves.
  pub finished_row :
      (s : Store) (tuple : WorkerHandoffTuple) (receipt : WorkerTerminalReceipt)
      (text compact_digest digest : String) (raw : RawHandoff Value) {db : Db}
      → Loads out s tuple raw
      → is_executing raw.state ≡ true
      → Finishes s.db tuple receipt text compact_digest digest db
      → (row : HandoffRow) × (handoff_row db tuple.handoff_id ≡ some row)
        × (stage row ≡ finished (evidence receipt digest text))
        × (evidence_of row ≡ evidence receipt digest text)
        × (same_tuple row.tuple tuple ≡ true)
  finished_row s tuple receipt text compact_digest digest raw {db = db} loads executing f =
      let row = loads.row in
      let d = loads.decodes in
      let here = find_where-holds (is_handoff tuple.handoff_id) s.db.worker_handoffs loads.found in
      let was : is_executing row.state ≡ true =
        sym (ap (λ (r : RawHandoff Value). is_executing r.state) d.is) ∙ executing in
      let change = finished_handoff receipt receipt.checkpoint_sequence digest text f.now in
      (
        change row,
        ap (λ (x : Db). handoff_row x tuple.handoff_id) f.rest
            ∙ find_where-update (is_handoff tuple.handoff_id)
                (is_handoff_in tuple.handoff_id is_executing) change (λ x. refl)
                s.db.worker_handoffs loads.found (rw (here, was) refl),
        finished_over receipt.status (evidence receipt digest text),
        refl,
        sym (ap (λ (r : RawHandoff Value). same_tuple r.tuple tuple) d.is) ∙ loads.matches,
      )

  -- A finished row of a hand-off that can be read.
  read-Final :
      (s : Store) (tuple : WorkerHandoffTuple) (receipt : WorkerTerminalReceipt)
      (digest text : String) (row : HandoffRow) {handoff : WorkerHandoff Value}
      → handoff_row s.db tuple.handoff_id ≡ some row
      → stage row ≡ finished (evidence receipt digest text)
      → evidence_of row ≡ evidence receipt digest text
      → same_tuple row.tuple tuple ≡ true
      → worker_handoff out s tuple.handoff_id ≡ ok (some handoff)
      → Final tuple digest receipt.result_digest s
  read-Final s tuple receipt digest text row found at columns matches read =
      let (raw, again) = reads-current out s tuple read (λ other e.
        subst (λ (r : HandoffRow). same_tuple r.tuple tuple ≡ true) (some-eq (sym found ∙ e))
          matches) in
      let loads = current_handoff-Loads out s tuple again in
      let decodes : Decodes out row raw =
        subst (λ (r : HandoffRow). Decodes out r raw) (some-eq (sym loads.found ∙ found))
          loads.decodes in
      let (t, stored, digests, results) =
        Decodes-receipt out row raw receipt.status receipt.terminal_ref receipt.result_digest digest
          receipt.checkpoint_sequence decodes (ap (λ (e : Evidence). e.status) columns)
          (ap (λ (e : Evidence). e.terminal_ref) columns)
          (ap (λ (e : Evidence). e.result_digest) columns)
          (ap (λ (e : Evidence). e.terminal_digest) columns)
          (ap (λ (e : Evidence). e.checkpoint_sequence) columns) in
      record {
        row = row;
        found = found;
        over = inl (at ∙ ap (λ e. finished e) (sym columns));
        terminal = t;
        read =
            decodes.read
            ∙ ap (λ x. ok x) (sym (ap (λ (r : RawHandoff Value). r.terminal) decodes.is) ∙ stored);
        digests = digests;
        results = results;
        matches = matches;
      }

  pub Answers-Final :
      (s : Store) (tuple : WorkerHandoffTuple) (receipt : WorkerTerminalReceipt)
      (authority : TerminalAuthority) (c : WorkerCompletion Value) (s' : Store)
      → Answers s tuple receipt authority c s'
      → Final tuple c.terminal_digest receipt.result_digest s'
  Answers-Final s tuple receipt authority c s' a =
      let loads = current_handoff-Loads out s tuple a.completes.loaded in
      elim a.completes.ended [
        | inl (over, _, db_is, repeats) ↦
            subst (Final tuple c.terminal_digest receipt.result_digest)
              (sym (a.store ∙ ap (λ d. record s { db = d }) db_is))
              (loaded-Final s tuple receipt c.terminal_digest a.completes.current loads over
                repeats)
        | inr (_, _, executing, _, f) ↦
            let (row, found, at, columns, matches) =
              finished_row s tuple receipt a.completes.text a.completes.compact_digest
                c.terminal_digest a.completes.current loads executing f in
            read-Final s' tuple receipt c.terminal_digest a.completes.text row found at columns
              matches a.read
      ]
