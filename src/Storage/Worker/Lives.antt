-- ===== src/Storage/Worker/Lives.antt =====
-- The life of one hand-off through every history of calls: its row refines the machine of its
-- stages, and keeps what its claim fixed.
use mathlib.Core.Path.{subst}
use ascension_watchdog.Prelude.{
  ◌<◌, ◌≡◌, refl, String, some, List, [], ◌∷◌, arith, inl, inr, ap, sym, ◌∙◌, str_eq,
}
use ascension_watchdog.Prelude.Tests.{Bool-cases}
use ascension_watchdog.Prelude.Updates.{find_where-append, find_where-update_kept}
use ascension_watchdog.Storage.Db.{Db, Store}
use ascension_watchdog.Storage.Worker.Types.{BindingRow, ControlRow, HandoffRow}
use ascension_watchdog.Storage.Worker.Outside.{Outside}
use ascension_watchdog.Storage.Worker.Queries.{is_handoff, handoff_row}
use ascension_watchdog.Storage.Worker.Life.{
  Course, stays, goes, stage, SameClaim, same_claim, HandoffChange, same, inserts, moves,
}
use ascension_watchdog.Storage.Worker.Kept.{Change, Follows}
use ascension_watchdog.Storage.Worker.Cycle.{WorkerOp, worker_run, worker_run-keeps}

-- A row with the claim of another, further on the way of its stages.
pub record Line (a b : HandoffRow) : Type 0 where
  pub claim : SameClaim a b
  pub path : Course (stage a) (stage b)

pub Line-refl : (a : HandoffRow) → Line a a
Line-refl a = record { claim = same_claim a; path = stays }

join : {a b c : _} → Course a b → Course b c → Course a c
join p stays = p
join p (goes q step) = goes (join p q) step

Line-trans : (a b c : HandoffRow) → Line a b → Line b c → Line a c
Line-trans a b c x y = record {
  claim = record {
    tuple = y.claim.tuple ∙ x.claim.tuple;
    watchdog_boot = y.claim.watchdog_boot ∙ x.claim.watchdog_boot;
    worker_boot = y.claim.worker_boot ∙ x.claim.worker_boot;
    sequence = y.claim.sequence ∙ x.claim.sequence;
    created = y.claim.created ∙ x.claim.created;
  };
  path = join x.path y.path;
}

-- The row of an identifier, before and after a transaction.
pub Change-row :
    (db db' : Db) (id : String) {a : HandoffRow}
    → HandoffChange db db'
    → handoff_row db id ≡ some a
    → (b : HandoffRow) × (handoff_row db' id ≡ some b) × Line a b
Change-row db db' id {a = a} (same e) found = (a, rw e found, Line-refl a)
Change-row db db' id {a = a} (inserts i) found = (
  a,
  rw i.handoffs (find_where-append (is_handoff id) db.worker_handoffs (i.row ∷ []) found),
  Line-refl a,
)
Change-row db db' id {a = a} (moves m) found =
    let after =
      find_where-update_kept (is_handoff id) m.test m.change
        (λ x u. ap (λ k. str_eq k.handoff_id id) (m.moves x u).claim.tuple) db.worker_handoffs
        found in
    elim (Bool-cases (m.test a)) [
      | inl u ↦ (
        m.change a,
        rw m.handoffs (after ∙ rw u refl),
        record { claim = (m.moves a u).claim; path = goes stays (m.moves a u).step },
      )
      | inr u ↦ (a, rw m.handoffs (after ∙ rw u refl), Line-refl a)
    ]

abbrev Lives : String → HandoffRow → Store → Type 0
Lives id a s = (b : HandoffRow) × (handoff_row s.db id ≡ some b) × Line a b

Change-Lives :
    (id : String) (a : HandoffRow) (s : Store) (db : Db)
    → Lives id a s
    → Change s db
    → Lives id a (record s { db = db })
Change-Lives id a s db (b, found, line) change =
    let (c, after, next) = Change-row s.db db id change.handoffs found in
    (c, after, Line-trans a b c line next)

-- The binding of the store.
abbrev IsBound : BindingRow → Store → Type 0
IsBound row s = s.db.worker_binding ≡ some row

-- The control of the store, and what it followed.
abbrev IsControlled : ControlRow → Store → Type 0
IsControlled a s = (b : ControlRow) × (s.db.worker_control ≡ some b) × Follows a b

follows : (a b c : ControlRow) → Follows a b → Follows b c → Follows a c
follows a b c (inl e) (inl f) = inl (f ∙ e)
follows a b c (inl e) (inr l) =
    inr (subst (λ (r : ControlRow). r.control.mode_sequence < c.control.mode_sequence) e l)
follows a b c (inr l) (inl f) =
    inr (subst (λ (r : ControlRow). a.control.mode_sequence < r.control.mode_sequence) (sym f) l)
follows a b c (inr l) (inr k) = inr (omega (arith, l, k))

Change-IsControlled :
    (a : ControlRow) (s : Store) (db : Db)
    → IsControlled a s
    → Change s db
    → IsControlled a (record s { db = db })
Change-IsControlled a s db (b, found, line) change =
    let (c, after, next) = change.control b found in (c, after, follows a b c line next)

module _ {Value Uuid : Type 0} (out : Outside Value Uuid) (null : Value) where
  -- The rows of hand-offs refine the machine of their stages: through every history of calls a
  -- hand-off keeps its tuple, its boots, its sequence and its creation time, and its stage is
  -- reached by steps of the machine, which sends a reservation once, finishes what was sent, and
  -- delivers the evidence that it was finished with.
  pub worker_run-Line :
      (s : Store) (ops : List (WorkerOp Value)) (id : String) {a : HandoffRow}
      → handoff_row s.db id ≡ some a
      → (b : HandoffRow) × (handoff_row (worker_run out null s ops).db id ≡ some b) × Line a b
  worker_run-Line s ops id {a = a} found =
      worker_run-keeps out null (Lives id a) (Change-Lives id a) s ops (a, found, Line-refl a)

  -- Through every history of calls a binding of the worker stays as it is, and a control stays or
  -- is followed by one of a greater sequence: one sequence never names two controls.
  pub worker_run-authority :
      (s : Store) (ops : List (WorkerOp Value)) {binding : BindingRow} {a : ControlRow}
      → s.db.worker_binding ≡ some binding
      → s.db.worker_control ≡ some a
      → ((worker_run out null s ops).db.worker_binding ≡ some binding)
        × ((b : ControlRow) × ((worker_run out null s ops).db.worker_control ≡ some b)
            × Follows a b)
  worker_run-authority s ops {binding = binding} {a = a} bound found = (
    worker_run-keeps out null (IsBound binding) (λ s db h change. change.binding binding h) s ops
        bound,
    worker_run-keeps out null (IsControlled a) (Change-IsControlled a) s ops (a, found, inl refl),
  )
