-- ===== src/Storage/Worker/Life.antt =====
-- The life of a hand-off: the machine that it runs through, and the moves of its row.
use ascension_watchdog.Prelude.{
  ℕ, ◌≡◌, refl, String, Bool, true, ◌&&◌, Option, [], ◌∷◌, ◌++◌, arith,
}
use ascension_watchdog.Prelude.Lists.{count_where, update_where}
use ascension_watchdog.Storage.Db.{Db}
use ascension_watchdog.Storage.Jobs.Select.{unresolved_attempts}
use ascension_watchdog.Storage.Worker.Types.{
  WorkerHandoffState, WorkerTerminalStatus, WorkerTerminalReceipt, HandoffRow,
}
use ascension_watchdog.Storage.Worker.Queries.{is_handoff}
use ascension_watchdog.Storage.Worker.Claim.{open_handoffs, collides}
use ascension_watchdog.Storage.Worker.Dispatch.{
  is_prepared, is_dispatched, is_handoff_in, dispatched_handoff, admitted_handoff,
}
use ascension_watchdog.Storage.Worker.Complete.{is_executing, terminal_state_of, finished_handoff}
use ascension_watchdog.Storage.Worker.Acknowledge.{is_finished, is_awaiting, acknowledged_handoff}

-- The columns of a receipt.
pub record Evidence : Type 0 where
  pub status : Option WorkerTerminalStatus
  pub checkpoint_sequence : Option ℕ
  pub terminal_ref : Option String
  pub result_digest : Option String
  pub terminal_digest : Option String
  pub terminal_result : Option String

-- What a hand-off promises: a reservation is sent once, perhaps taken, then finished with evidence
-- that its delivery keeps.
pub data Stage : Type 0 where
  reserved sent taken refused : Stage
  finished delivered : Evidence → Stage

pub data Step : Stage → Stage → Type 0 where
  dispatches : Step reserved sent
  admits : Step sent taken
  finishes_sent : (e : Evidence) → Step sent (finished e)
  finishes_taken : (e : Evidence) → Step taken (finished e)
  delivers : (e : Evidence) → Step (finished e) (delivered e)

pub data Course : Stage → Stage → Type 0 where
  stays : {a : Stage} → Course a a
  goes : {a b c : Stage} → Course a b → Step b c → Course a c

abbrev pub evidence_of : HandoffRow → Evidence
evidence_of row = record {
  status = row.terminal_status;
  checkpoint_sequence = row.checkpoint_sequence;
  terminal_ref = row.terminal_ref;
  result_digest = row.result_digest;
  terminal_digest = row.terminal_digest;
  terminal_result = row.terminal_result;
}

abbrev pub stage_in : WorkerHandoffState → Evidence → Stage
stage_in WorkerHandoffState.prepared e = reserved
stage_in WorkerHandoffState.may_have_been_dispatched e = sent
stage_in WorkerHandoffState.admitted e = taken
stage_in WorkerHandoffState.completed e = finished e
stage_in WorkerHandoffState.failed e = finished e
stage_in WorkerHandoffState.acknowledged e = delivered e
stage_in WorkerHandoffState.rejected e = refused

abbrev pub stage : HandoffRow → Stage
stage row = stage_in row.state (evidence_of row)

-- The columns that a claim fixes.
pub record SameClaim (a b : HandoffRow) : Type 0 where
  pub tuple : b.tuple ≡ a.tuple
  pub watchdog_boot : b.watchdog_boot_id ≡ a.watchdog_boot_id
  pub worker_boot : b.worker_boot_id ≡ a.worker_boot_id
  pub sequence : b.mode_sequence ≡ a.mode_sequence
  pub created : b.created_at_ms ≡ a.created_at_ms

pub same_claim : (r : HandoffRow) → SameClaim r r
same_claim r = record {
  tuple = refl;
  watchdog_boot = refl;
  worker_boot = refl;
  sequence = refl;
  created = refl;
}

pub record IsMove (a b : HandoffRow) : Type 0 where
  pub claim : SameClaim a b
  pub step : Step (stage a) (stage b)

-- What a transaction does to the table.
pub record Inserts (db db' : Db) : Type 0 where
  pub row : HandoffRow
  pub new : count_where (collides row) db.worker_handoffs ≡ 0
  pub none_open : open_handoffs db ≡ 0
  pub free : unresolved_attempts db ≡ 0
  pub state : row.state ≡ WorkerHandoffState.prepared
  pub handoffs : db'.worker_handoffs ≡ db.worker_handoffs ++ row ∷ []

pub record Moves (db db' : Db) : Type 0 where
  pub test : HandoffRow → Bool
  pub change : HandoffRow → HandoffRow
  pub moves : (r : HandoffRow) → test r ≡ true → IsMove r (change r)
  pub handoffs : db'.worker_handoffs ≡ update_where test change db.worker_handoffs

pub data HandoffChange (db db' : Db) : Type 0 where
  same : db'.worker_handoffs ≡ db.worker_handoffs → HandoffChange db db'
  inserts : Inserts db db' → HandoffChange db db'
  moves : Moves db db' → HandoffChange db db'

both : (x y : Bool) → (x && y) ≡ true → (x ≡ true) × (y ≡ true)
both x y h = ground arith

dispatch_step :
    (st : WorkerHandoffState) (e e' : Evidence)
    → is_prepared st ≡ true
    → Step (stage_in st e) (stage_in WorkerHandoffState.may_have_been_dispatched e')
dispatch_step WorkerHandoffState.prepared e e' h = dispatches
dispatch_step WorkerHandoffState.may_have_been_dispatched e e' h = cc
dispatch_step WorkerHandoffState.admitted e e' h = cc
dispatch_step WorkerHandoffState.completed e e' h = cc
dispatch_step WorkerHandoffState.failed e e' h = cc
dispatch_step WorkerHandoffState.acknowledged e e' h = cc
dispatch_step WorkerHandoffState.rejected e e' h = cc

admit_step :
    (st : WorkerHandoffState) (e e' : Evidence)
    → is_dispatched st ≡ true
    → Step (stage_in st e) (stage_in WorkerHandoffState.admitted e')
admit_step WorkerHandoffState.may_have_been_dispatched e e' h = admits
admit_step WorkerHandoffState.prepared e e' h = cc
admit_step WorkerHandoffState.admitted e e' h = cc
admit_step WorkerHandoffState.completed e e' h = cc
admit_step WorkerHandoffState.failed e e' h = cc
admit_step WorkerHandoffState.acknowledged e e' h = cc
admit_step WorkerHandoffState.rejected e e' h = cc

finish_step :
    (st : WorkerHandoffState) (status : WorkerTerminalStatus) (e e' : Evidence)
    → is_executing st ≡ true
    → Step (stage_in st e) (stage_in (terminal_state_of status) e')
finish_step WorkerHandoffState.may_have_been_dispatched WorkerTerminalStatus.completed e e' h =
    finishes_sent e'
finish_step WorkerHandoffState.may_have_been_dispatched WorkerTerminalStatus.failed e e' h =
    finishes_sent e'
finish_step WorkerHandoffState.admitted WorkerTerminalStatus.completed e e' h = finishes_taken e'
finish_step WorkerHandoffState.admitted WorkerTerminalStatus.failed e e' h = finishes_taken e'
finish_step WorkerHandoffState.prepared status e e' h = cc
finish_step WorkerHandoffState.completed status e e' h = cc
finish_step WorkerHandoffState.failed status e e' h = cc
finish_step WorkerHandoffState.acknowledged status e e' h = cc
finish_step WorkerHandoffState.rejected status e e' h = cc

deliver_step :
    (st : WorkerHandoffState) (e : Evidence)
    → is_finished st ≡ true
    → Step (stage_in st e) (delivered e)
deliver_step WorkerHandoffState.completed e h = delivers e
deliver_step WorkerHandoffState.failed e h = delivers e
deliver_step WorkerHandoffState.prepared e h = cc
deliver_step WorkerHandoffState.may_have_been_dispatched e h = cc
deliver_step WorkerHandoffState.admitted e h = cc
deliver_step WorkerHandoffState.acknowledged e h = cc
deliver_step WorkerHandoffState.rejected e h = cc

module _ (id : String) (row : HandoffRow) (now : ℕ) where
  pub dispatched-IsMove :
      is_handoff_in id is_prepared row ≡ true → IsMove row (dispatched_handoff now row)
  dispatched-IsMove h = record {
    claim = record {
      tuple = refl;
      watchdog_boot = refl;
      worker_boot = refl;
      sequence = refl;
      created = refl;
    };
    step =
        dispatch_step row.state (evidence_of row) (evidence_of row)
          (both (is_handoff id row) (is_prepared row.state) h).1;
  }

  pub admitted-IsMove :
      is_handoff_in id is_dispatched row ≡ true → IsMove row (admitted_handoff now row)
  admitted-IsMove h = record {
    claim = record {
      tuple = refl;
      watchdog_boot = refl;
      worker_boot = refl;
      sequence = refl;
      created = refl;
    };
    step =
        admit_step row.state (evidence_of row) (evidence_of row)
          (both (is_handoff id row) (is_dispatched row.state) h).1;
  }

  pub finished-IsMove :
      (receipt : WorkerTerminalReceipt) (sequence : ℕ) (digest text : String)
      → is_handoff_in id is_executing row ≡ true
      → IsMove row (finished_handoff receipt sequence digest text now row)
  finished-IsMove receipt sequence digest text h = record {
    claim = record {
      tuple = refl;
      watchdog_boot = refl;
      worker_boot = refl;
      sequence = refl;
      created = refl;
    };
    step =
        finish_step row.state receipt.status _ _
          (both (is_handoff id row) (is_executing row.state) h).1;
  }

  pub acknowledged-IsMove : is_awaiting id row ≡ true → IsMove row (acknowledged_handoff now row)
  acknowledged-IsMove h =
      let here : (is_handoff id row && is_finished row.state) ≡ true =
        (both (is_handoff id row && is_finished row.state) row.ack_intent h).0 in
      record {
        claim = record {
          tuple = refl;
          watchdog_boot = refl;
          worker_boot = refl;
          sequence = refl;
          created = refl;
        };
        step = deliver_step row.state _ (both (is_handoff id row) (is_finished row.state) here).1;
      }
