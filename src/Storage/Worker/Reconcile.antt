-- ===== src/Storage/Worker/Reconcile.antt =====
-- Which hand-off the reconciliation is handed, and when it is handed none.
use mathlib.Core.Path.{subst}
use mathlib.Core.List.{Memᴰ}
use mathlib.Core.List.Memᴰ.{head, tail, not-nil}
use ascension_watchdog.Prelude.{
  ◌+◌, ◌≤◌, ◌≡◌, ◌⊎◌, refl, String, Bool, true, false, Option, none, some, List, [], ◌∷◌, arith,
  inl, inr, ap, sym, ◌∙◌, eq_iff,
}
use ascension_watchdog.Prelude.Tests.{Bool-cases}
use ascension_watchdog.Prelude.Lists.{All, count_where, find_where, keep_where}
use ascension_watchdog.Prelude.Earliest.{IsEarliest, earliest_by-none, earliest_by-IsEarliest}
use ascension_watchdog.Error.{ok, sqlite, ok-eq, some-eq, >>=-eq-ok, >>-ensure}
use ascension_watchdog.Storage.Db.{Store}
use ascension_watchdog.Storage.Worker.Types.{WorkerHandoffState, HandoffRow}
use ascension_watchdog.Storage.Worker.Outside.{Outside}
use ascension_watchdog.Storage.Worker.Validate.{required, validate_uuid4}
use ascension_watchdog.Storage.Worker.Rows.{RawHandoff, raw_handoff_from_row}
use ascension_watchdog.Storage.Worker.Queries.{
  WorkerHandoff, is_handoff, handoff_row, is_pending, handoff_before, oldest_handoff, read_oldest,
  checked_job, handoff_from_raw, load_handoff_tx, worker_handoff,
  next_worker_handoff_for_reconciliation,
}
use ascension_watchdog.Storage.Worker.Endings.Deliveries.{required-inv}
use ascension_watchdog.Storage.Worker.Loaded.{optional-some, raw_handoff-Decodes}
use ascension_watchdog.Storage.Worker.Exclusive.{IsExclusive}

mem-counts :
    (p : HandoffRow → Bool) (r : HandoffRow) (rows : List HandoffRow)
    → Memᴰ r rows
    → p r ≡ true
    → 1 ≤ count_where p rows
mem-counts p r [] m h = absurd (not-nil m)
mem-counts p r (x ∷ xs) (head e) h = rw (← ap p e, h) (omega arith)
mem-counts p r (x ∷ xs) (tail m) h = ground (arith, mem-counts p r xs m h)

-- The only row that passes a test is the first that does.
find_where-only :
    (p : HandoffRow → Bool) (r : HandoffRow) (rows : List HandoffRow)
    → count_where p rows ≤ 1
    → Memᴰ r rows
    → p r ≡ true
    → find_where p rows ≡ some r
find_where-only p r [] one m h = absurd (not-nil m)
find_where-only p r (x ∷ xs) one (head e) h = rw (← ap p e, h) (ap (λ y. some y) (sym e))
find_where-only p r (x ∷ xs) one (tail m) h = elim (Bool-cases (p x)) [
  | inl e ↦
      let more = mem-counts p r xs m h in
      let few : 1 + count_where p xs ≤ 1 = rw e at one in absurd (omega (arith, more, few))
  | inr e ↦
      let few : 0 + count_where p xs ≤ 1 = rw e at one in
      rw e (find_where-only p r xs (omega (arith, few)) m h)
]

-- A hand-off that is delivered or was rejected.
abbrev pub Over : HandoffRow → Type 0
Over row = (row.state ≡ WorkerHandoffState.acknowledged) ⊎ (row.state ≡ WorkerHandoffState.rejected)

-- A hand-off that waits to be sent, to be taken, for its end, or for its delivery.
abbrev pub Waiting : HandoffRow → Type 0
Waiting row =
    (row.state ≡ WorkerHandoffState.prepared)
    ⊎ (row.state ≡ WorkerHandoffState.may_have_been_dispatched)
    ⊎ (row.state ≡ WorkerHandoffState.admitted)
    ⊎ (row.state ≡ WorkerHandoffState.completed)
    ⊎ (row.state ≡ WorkerHandoffState.failed)

is_pending-Waiting : (row : HandoffRow) → is_pending row ≡ true → Waiting row
is_pending-Waiting row h = ground arith

is_pending-Over : (row : HandoffRow) → is_pending row ≡ false → Over row
is_pending-Over row h = ground arith

-- A row of the store that waits, and every row that is not over is as young or younger.
abbrev pub IsOldest : List HandoffRow → HandoffRow → Type 0
IsOldest = IsEarliest Waiting Over (λ r. r.created_at_ms)

oldest_handoff-IsOldest :
    (rows : List HandoffRow) {row : HandoffRow}
    → oldest_handoff (keep_where is_pending rows) ≡ some row
    → IsOldest rows row
unfolding oldest_handoff
oldest_handoff-IsOldest rows h =
    earliest_by-IsEarliest handoff_before (λ r. r.created_at_ms) (λ a b e. ground arith)
      (λ a b e. ground arith) Waiting Over is_pending rows is_pending-Waiting is_pending-Over h

module _ {Value Uuid : Type 0} (out : Outside Value Uuid) where
  -- A hand-off that is read has the tuple and the state of its row.
  worker_handoff-row :
      (s : Store) (id : String) {h : WorkerHandoff Value}
      → worker_handoff out s id ≡ ok (some h)
      → (row : HandoffRow) × (handoff_row s.db id ≡ some row)
        × (h.tuple ≡ row.tuple)
        × (h.state ≡ row.state)
  unfolding worker_handoff load_handoff_tx handoff_from_raw
  worker_handoff-row s id {h = h} e =
      let (_, _, h1) = >>=-eq-ok (validate_uuid4 out id) _ e in
      let (found, loaded, h2) = >>=-eq-ok (load_handoff_tx out s.db id) _ h1 in
      let (raw, is, built) =
        optional-some (handoff_from_raw out s.db s.max_payload_bytes) found h2 in
      let (job, _, made) = >>=-eq-ok (checked_job out s.db s.max_payload_bytes raw) _ built in
      let (row, at, decoded) =
        optional-some (raw_handoff_from_row out) (handoff_row s.db id)
          (loaded ∙ ap (λ x. ok x) is) in
      let d = raw_handoff-Decodes out row decoded in
      (
        row,
        at,
        ap (λ (x : WorkerHandoff Value). x.tuple) (ok-eq made)
            ∙ ap (λ (r : RawHandoff Value). r.tuple) d.is,
        ap (λ (x : WorkerHandoff Value). x.state) (ok-eq made)
            ∙ ap (λ (r : RawHandoff Value). r.state) d.is,
      )

  -- What an answer of the reconciliation's query says of the rows.
  abbrev pub Reconciles : Store → Option (WorkerHandoff Value) → Type 0
  Reconciles s none = All Over s.db.worker_handoffs
  Reconciles s (some h) =
      (row : HandoffRow) × IsOldest s.db.worker_handoffs row
      × (h.tuple ≡ row.tuple)
      × (h.state ≡ row.state)

  read_oldest-Reconciles :
      (s : Store) (o : Option HandoffRow) {answer : Option (WorkerHandoff Value)}
      → IsExclusive s
      → oldest_handoff (keep_where is_pending s.db.worker_handoffs) ≡ o
      → read_oldest out s o ≡ ok answer
      → Reconciles s answer
  unfolding read_oldest oldest_handoff
  read_oldest-Reconciles s none {answer = answer} exclusive is e =
      subst (Reconciles s) (sym (ok-eq e))
        (earliest_by-none Over handoff_before is_pending _ is_pending-Over is)
  read_oldest-Reconciles s (some row) {answer = answer} exclusive is e =
      let (_, h1) = >>-ensure _ sqlite _ e in
      let (found, read, h2) = >>=-eq-ok (worker_handoff out s row.tuple.handoff_id) _ h1 in
      let (handoff, wanted, h3) = >>=-eq-ok (required found) _ h2 in
      let (other, at, tuple, state) =
        worker_handoff-row s row.tuple.handoff_id
          (read ∙ ap (λ x. ok x) (required-inv found wanted)) in
      let oldest = oldest_handoff-IsOldest s.db.worker_handoffs is in
      let only =
        find_where-only (is_handoff row.tuple.handoff_id) row s.db.worker_handoffs
          (exclusive.ids row.tuple.handoff_id) oldest.stored
          ((eq_iff row.tuple.handoff_id row.tuple.handoff_id).1 refl) in
      let same : other ≡ row = some-eq (sym at ∙ only) in
      let reconciles : Reconciles s (some handoff) = (
        row,
        oldest,
        tuple ∙ ap (λ (r : HandoffRow). r.tuple) same,
        state ∙ ap (λ (r : HandoffRow). r.state) same,
      ) in
      subst (Reconciles s) (sym (ok-eq h3)) reconciles

  -- In an exclusive store the reconciliation is handed no hand-off only where every row is
  -- acknowledged or rejected, and otherwise the one of a row in another state, with its tuple and
  -- its state, than which every older row is acknowledged or rejected: no hand-off that waits for
  -- its end or its delivery is passed over.
  pub reconcile-next :
      (s : Store) {answer : Option (WorkerHandoff Value)}
      → IsExclusive s
      → next_worker_handoff_for_reconciliation out s ≡ ok answer
      → Reconciles s answer
  unfolding next_worker_handoff_for_reconciliation
  reconcile-next s exclusive h = read_oldest-Reconciles s _ exclusive refl h
