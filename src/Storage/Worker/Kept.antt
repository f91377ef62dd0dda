-- ===== src/Storage/Worker/Kept.antt =====
-- What a successful transaction of the hand-off, or of the queue, does to the store: the rule by
-- which a property of stores survives a history of calls.
use mathlib.Core.Path.{subst}
use ascension_watchdog.Prelude.{
  ℕ, ◌≤◌, ◌<◌, ◌≡◌, ◌⊎◌, refl, String, Bool, true, some, List, [], ◌∷◌, arith, inl, inr, ap, sym,
  ◌∙◌,
}
use ascension_watchdog.Prelude.Tests.{◌==◌}
use ascension_watchdog.Prelude.Lists.{count_where}
use ascension_watchdog.Storage.Db.{Db, Store, worker_tables, SameWorker}
use ascension_watchdog.Storage.Jobs.Select.{unresolved_attempts}
use ascension_watchdog.Storage.Jobs.Counts.{SameQueue, Stops, Starts, Submits}
use ascension_watchdog.Storage.Worker.Types.{
  WorkerBinding, WorkerControlWitness, WorkerClaimWitness, WorkerHandoffTuple,
  WorkerTerminalReceipt, BindingRow, ControlRow, HandoffRow,
}
use ascension_watchdog.Storage.Worker.Outside.{Outside}
use ascension_watchdog.Storage.Worker.Claim.{DrawnIds, is_open, open_handoffs}
use ascension_watchdog.Storage.Worker.Dispatch.{is_handoff_in}
use ascension_watchdog.Storage.Worker.Complete.{is_executing}
use ascension_watchdog.Storage.Worker.Life.{
  IsMove, HandoffChange, same, inserts, moves, finished-IsMove,
}
use ascension_watchdog.Storage.Worker.Inversions.{Updates}
use ascension_watchdog.Storage.Worker.Endings.Writes.{Finishes}
use ascension_watchdog.Storage.Worker.Counts.{Ends, Finishes-Ends}
use ascension_watchdog.Storage.Worker.Claims.{HandsOff}
use ascension_watchdog.Storage.Worker.Controls.{Configures, Controls}

-- What happens to the queue.
pub data QueueChange (s : Store) (db : Db) : Type 0 where
  idle : SameQueue s.db db → QueueChange s db
  stops : (freed : ℕ) → Stops freed s.db db → QueueChange s db
  starts :
      unresolved_attempts s.db ≡ 0
      → (started : Db) → Starts s.db started
      → SameQueue started db
      → QueueChange s db
  submits : Submits s.max_jobs s.db db → QueueChange s db
  ends : 1 ≤ open_handoffs s.db → Ends s.db db → QueueChange s db

-- A binding stays, and a control stays or is followed by one of a greater sequence.
abbrev pub KeepsBinding : Db → Db → Type 0
KeepsBinding db db' =
    (row : BindingRow) → db.worker_binding ≡ some row → db'.worker_binding ≡ some row

abbrev pub Follows : ControlRow → ControlRow → Type 0
Follows a b = (b ≡ a) ⊎ (a.control.mode_sequence < b.control.mode_sequence)

abbrev pub AdvancesControl : Db → Db → Type 0
AdvancesControl db db' =
    (a : ControlRow)
    → db.worker_control ≡ some a
    → (b : ControlRow) × (db'.worker_control ≡ some b) × Follows a b

pub record Change (s : Store) (db : Db) : Type 0 where
  pub queue : QueueChange s db
  pub handoffs : HandoffChange s.db db
  pub binding : KeepsBinding s.db db
  pub control : AdvancesControl s.db db

same_binding : (db db' : Db) → db'.worker_binding ≡ db.worker_binding → KeepsBinding db db'
same_binding db db' e row is = e ∙ is

same_control : (db db' : Db) → db'.worker_control ≡ db.worker_control → AdvancesControl db db'
same_control db db' e a is = (a, e ∙ is, inl refl)

-- A change that leaves the tables of the worker alone.
pub queue_only : (s : Store) (db : Db) → QueueChange s db → SameWorker s.db db → Change s db
queue_only s db queue worker = record {
  queue = queue;
  handoffs = same (ap (λ p. p.2) worker);
  binding = same_binding s.db db (ap (λ p. p.0) worker);
  control = same_control s.db db (ap (λ p. p.1) worker);
}

pub unchanged : (s : Store) (db : Db) → db ≡ s.db → Change s db
unchanged s db e =
    queue_only s db (idle (ap (λ (d : Db). d.jobs) e, ap (λ (d : Db). d.attempts) e))
      (ap worker_tables e)

executing-le :
    (id : String) (rows : List HandoffRow)
    → count_where (is_handoff_in id is_executing) rows ≤ count_where (λ r. is_open r.state) rows
executing-le id [] = omega arith
executing-le id (r ∷ rows) = ground (arith, executing-le id rows)

-- A hand-off that is executing is open.
executing_opens :
    (id : String) (rows : List HandoffRow)
    → (count_where (is_handoff_in id is_executing) rows == 1) ≡ true
    → 1 ≤ count_where (λ r. is_open r.state) rows
executing_opens id rows h = let le = executing-le id rows in ground (arith, le, h)

module _ (s : Store) (db : Db) where
  pub Updates-Change :
      (test : HandoffRow → Bool) (change : HandoffRow → HandoffRow)
      → ((r : HandoffRow) → test r ≡ true → IsMove r (change r))
      → Updates test change s.db db
      → Change s db
  Updates-Change test change each u = record {
    queue = idle (ap (λ (d : Db). d.jobs) u.rest, ap (λ (d : Db). d.attempts) u.rest);
    handoffs = moves (record {
      test = test;
      change = change;
      moves = each;
      handoffs = ap (λ (d : Db). d.worker_handoffs) u.rest;
    });
    binding = same_binding s.db db (ap (λ (d : Db). d.worker_binding) u.rest);
    control = same_control s.db db (ap (λ (d : Db). d.worker_control) u.rest);
  }

  pub Finishes-Change :
      (tuple : WorkerHandoffTuple) (receipt : WorkerTerminalReceipt)
      (text compact_digest digest : String)
      → Finishes s.db tuple receipt text compact_digest digest db
      → Change s db
  Finishes-Change tuple receipt text compact_digest digest f = record {
    queue =
        ends (executing_opens tuple.handoff_id s.db.worker_handoffs f.one_handoff)
          (Finishes-Ends s.db tuple receipt text compact_digest digest f);
    handoffs = moves (record {
      test = is_handoff_in tuple.handoff_id is_executing;
      change = _;
      moves = λ r h.
          finished-IsMove tuple.handoff_id r f.now receipt receipt.checkpoint_sequence digest text
            h;
      handoffs = ap (λ (d : Db). d.worker_handoffs) f.rest;
    });
    binding = same_binding s.db db (ap (λ (d : Db). d.worker_binding) f.rest);
    control = same_control s.db db (ap (λ (d : Db). d.worker_control) f.rest);
  }

  pub Configures-Change : (binding : WorkerBinding) → Configures s.db binding db → Change s db
  Configures-Change binding c = record {
    queue = idle (ap (λ (d : Db). d.jobs) c.rest, ap (λ (d : Db). d.attempts) c.rest);
    handoffs = same (ap (λ (d : Db). d.worker_handoffs) c.rest);
    binding = λ row is. cc (sym is ∙ c.was);
    control = same_control s.db db (ap (λ (d : Db). d.worker_control) c.rest);
  }

  pub Controls-Change : (control : WorkerControlWitness) → Controls s.db control db → Change s db
  Controls-Change control c = record {
    queue = idle (ap (λ (d : Db). d.jobs) c.rest, ap (λ (d : Db). d.attempts) c.rest);
    handoffs = same (ap (λ (d : Db). d.worker_handoffs) c.rest);
    binding = same_binding s.db db (ap (λ (d : Db). d.worker_binding) c.rest);
    control = λ a is. (
      c.row,
      ap (λ (d : Db). d.worker_control) c.rest,
      inr (
          subst (λ (w : WorkerControlWitness). a.control.mode_sequence < w.mode_sequence) (sym c.is)
            (c.newer a is)),
    );
  }

module _ {Value Uuid : Type 0} (out : Outside Value Uuid) (s : Store) (db : Db) where
  pub Claims-Change :
      (witness : WorkerClaimWitness) (now_ms : ℕ) (ids : DrawnIds)
      → HandsOff out s witness now_ms ids db
      → Change s db
  Claims-Change witness now_ms ids h =
      let c = h.claims in
      record {
        queue = starts h.free c.started c.starts c.queue;
        handoffs = inserts (record {
          row = _;
          new = c.new;
          none_open = h.none_open;
          free = h.free;
          state = refl;
          handoffs = c.handoffs;
        });
        binding = same_binding s.db db c.binding;
        control = same_control s.db db c.control;
      }
