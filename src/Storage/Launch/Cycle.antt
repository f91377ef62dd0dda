-- ===== src/Storage/Launch/Cycle.antt =====
-- Histories of launch calls: an invariant of the table of intents, and the life of one intent.
use mathlib.Core.Path.{subst}
use ascension_watchdog.Prelude.{
  ℕ, ◌≤◌, ◌<◌, ◌≡◌, ◌⊎◌, refl, String, Bool, true, ◌&&◌, not, Option, some, List, [], ◌∷◌, ◌++◌,
  arith, inl, inr, ap, sym, ◌∙◌, str_eq, eq_iff,
}
use ascension_watchdog.Prelude.Tests.{Bool-cases}
use ascension_watchdog.Prelude.Lists.{
  count_where, update_where, All, count_where-append, count_where-update_le,
}
use ascension_watchdog.Prelude.Updates.{find_where-append, find_where-update_kept}
use ascension_watchdog.Config.{DesiredMode}
use ascension_watchdog.Error.{Result, ok, err, ◌>>=◌, >>=-eq-ok}
use ascension_watchdog.Storage.Db.{LaunchIntentState, IntentRow, Db, Store, commit, commit-keeps}
use ascension_watchdog.Storage.Metadata.{set_desired_mode_at, set_desired_mode_tx}
use ascension_watchdog.Storage.Metadata.Mode.{set_desired_mode_tx-intents}
use ascension_watchdog.Storage.Jobs.{Codec}
use ascension_watchdog.Storage.Jobs.Outcomes.{state-eq}
use ascension_watchdog.Storage.Launch.{
  is_cleaned, is_unsettled_of, intent_row, then_intent, prepare_launch_intent, record_launch_proof,
  activate_launch_intent, clean_launch_intent,
}
use ascension_watchdog.Storage.Launch.Kept.{
  rank, SameBinding, HasProof, IsMove, Change, same, inserts, moves, same_binding,
  prepare_tx-Inserts, record_proof_tx-moves, activate_tx-moves, clean_tx-moves,
}

pub data LaunchOp (Value : Type 0) : Type 0 where
  prepare :
      (id component nonce incarnation digest : String)
      → Option String
      → (now_ms : ℕ) → LaunchOp Value
  record_proof : (intent_id : String) → Value → (now_ms : ℕ) → LaunchOp Value
  activate : (intent_id : String) → (now_ms : ℕ) → LaunchOp Value
  clean : (intent_id : String) → (now_ms : ℕ) → LaunchOp Value
  set_mode : DesiredMode → (now_ms : ℕ) → LaunchOp Value

module _ {Value : Type 0} (codec : Codec Value) (is_null : Value → Bool) where
  -- The store after a call, whatever its answer.
  unfoldable pub launch_step : Store → LaunchOp Value → Store
  launch_step s (prepare id component nonce incarnation digest containment now_ms) =
      (prepare_launch_intent codec is_null s id component nonce incarnation digest containment
        now_ms).1
  launch_step s (record_proof intent_id proof now_ms) =
      (record_launch_proof codec is_null s intent_id proof now_ms).1
  launch_step s (activate intent_id now_ms) =
      (activate_launch_intent codec is_null s intent_id now_ms).1
  launch_step s (clean intent_id now_ms) = (clean_launch_intent codec is_null s intent_id now_ms).1
  launch_step s (set_mode mode now_ms) = (set_desired_mode_at s mode now_ms).1

  unfoldable pub launch_run : Store → List (LaunchOp Value) → Store
  unfolding launch_step
  launch_run s [] = s
  launch_run s (op ∷ ops) = launch_run (launch_step s op) ops

  then_intent-store :
      (id : String) (r : Result (Unit {0}) × Store) → (then_intent codec is_null id r).1 ≡ r.1
  then_intent-store id (ok _, s) = refl
  then_intent-store id (err _, s) = refl

set_mode-Change :
    (db : Db) (mode : DesiredMode) (now_ms : ℕ) {db' : Db}
    → ◌≡◌ {A = Result (Unit {0} × Db)}
        (do written ← set_desired_mode_tx db mode now_ms; ok (tt, written))
        (ok (tt, db'))
    → Change db db'
set_mode-Change db mode now_ms {db' = db'} h =
    let (written, set, e) = >>=-eq-ok (set_desired_mode_tx db mode now_ms) _ h in
    same (
      ap (λ (d : Db). d.intents) (state-eq _ _ written db' e)
      ∙ set_desired_mode_tx-intents db mode now_ms set)

module _ {Value : Type 0} (codec : Codec Value) (is_null : Value → Bool) (P : Store → Type 0)
    (kept : (s : Store) (db : Db) → P s → Change s.db db → P (record s { db = db })) where
  read_after :
      (id : String) (s : Store) (r : Result (Unit {0} × Db))
      → P s
      → ((db : Db) → r ≡ ok (tt, db) → Change s.db db)
      → P (then_intent codec is_null id (commit s r)).1
  read_after id s r h each =
      subst P (sym (then_intent-store codec is_null id (commit s r)))
        (commit-keeps P s r h (λ _ db e. kept s db h (each db e)))

  launch_step-keeps : (s : Store) (op : LaunchOp Value) → P s → P (launch_step codec is_null s op)
  unfolding launch_step prepare_launch_intent record_launch_proof activate_launch_intent
      clean_launch_intent set_desired_mode_at
  launch_step-keeps s (prepare id component nonce incarnation digest containment now_ms) h =
      read_after id s _ h (λ db e.
        let (_, _, inserted) =
          prepare_tx-Inserts s.db id component nonce incarnation digest containment now_ms e in
        inserts inserted)
  launch_step-keeps s (record_proof intent_id proof now_ms) h =
      read_after intent_id s _ h
        (λ db e. record_proof_tx-moves s.db intent_id now_ms codec is_null proof e)
  launch_step-keeps s (activate intent_id now_ms) h =
      read_after intent_id s _ h (λ db e. activate_tx-moves s.db intent_id now_ms e)
  launch_step-keeps s (clean intent_id now_ms) h =
      read_after intent_id s _ h (λ db e. clean_tx-moves s.db intent_id now_ms e)
  launch_step-keeps s (set_mode mode now_ms) h =
      commit-keeps P s _ h (λ _ db e. kept s db h (set_mode-Change s.db mode now_ms e))

  launch_run-keeps :
      (s : Store) (ops : List (LaunchOp Value)) → P s → P (launch_run codec is_null s ops)
  unfolding launch_run
  launch_run-keeps s [] h = h
  launch_run-keeps s (op ∷ ops) h =
      launch_run-keeps (launch_step codec is_null s op) ops (launch_step-keeps s op h)

-- At most one intent of each component is unsettled, and every row has the proof its state wants.
pub record IsOwned (s : Store) : Type 0 where
  pub single : (component : String) → count_where (is_unsettled_of component) s.db.intents ≤ 1
  pub proofs : All HasProof s.db.intents

-- One life: the binding is as it was admitted, and the row is as it was or further on.
pub record Lifeline (a b : IntentRow) : Type 0 where
  pub binding : SameBinding a b
  pub fate : (b ≡ a) ⊎ (rank a.state < rank b.state)

All-append :
    (P : IntentRow → Type 0) (xs : List IntentRow) (y : IntentRow)
    → All P xs
    → P y
    → All P (xs ++ y ∷ [])
All-append P [] y h p = (p, tt)
All-append P (x ∷ xs) y h p = (h.0, All-append P xs y h.1 p)

All-update :
    (P : IntentRow → Type 0) (q : IntentRow → Bool) (f : IntentRow → IntentRow)
    → ((x : IntentRow) → q x ≡ true → P x → P (f x))
    → (xs : List IntentRow) → All P xs
    → All P (update_where q f xs)
All-update P q f keeps [] h = tt
All-update P q f keeps (x ∷ xs) h = elim (Bool-cases (q x)) [
  | inl u ↦ rw u (keeps x u h.0, All-update P q f keeps xs h.1)
  | inr u ↦ rw u (h.0, All-update P q f keeps xs h.1)
]

and_true : (x y : Bool) → (x && y) ≡ true → (x ≡ true) × (y ≡ true)
and_true x y h = ground arith

earlier :
    (x y : LaunchIntentState)
    → rank x < rank y
    → not (is_cleaned y) ≡ true
    → not (is_cleaned x) ≡ true
earlier x y lt h = ground arith

open_before :
    (component : String) (a b : IntentRow)
    → IsMove a b
    → is_unsettled_of component b ≡ true
    → is_unsettled_of component a ≡ true
open_before component a b m h =
    let component_same = m.binding.component in
    let (of_b, open_b) = and_true (str_eq b.component_id component) (not (is_cleaned b.state)) h in
    rw (← component_same, of_b, earlier a.state b.state m.forward open_b) refl

single_more :
    (c component : String) (row : IntentRow) (rows : List IntentRow)
    → count_where (is_unsettled_of c) rows ≤ 1
    → count_where (is_unsettled_of component) rows ≡ 0
    → row.component_id ≡ component
    → count_where (is_unsettled_of c) (rows ++ row ∷ []) ≤ 1
single_more c component row rows one none_open is =
    let total = count_where-append (is_unsettled_of c) rows (row ∷ []) in
    elim (Bool-cases (str_eq row.component_id c)) [
      | inl e ↦
          let to_c : component ≡ c = sym is ∙ (eq_iff row.component_id c).0 e in
          let zero_c =
            subst (λ (k : String). count_where (is_unsettled_of k) rows ≡ 0) to_c none_open in
          ground (arith, total, zero_c)
      | inr e ↦ ground (arith, total, one, e)
    ]

Change-IsOwned : (s : Store) (db : Db) → IsOwned s → Change s.db db → IsOwned (record s { db = db })
Change-IsOwned s db h (same e) = record { single = λ c. rw e (h.single c); proofs = rw e h.proofs }
Change-IsOwned s db h (inserts i) = record {
  single = λ c.
      rw i.intents
        (single_more c i.row.component_id i.row s.db.intents (h.single c) i.none_open refl);
  proofs =
      rw i.intents (All-append HasProof s.db.intents i.row h.proofs (rw (i.state, i.proof) refl));
}
Change-IsOwned s db h (moves m) = record {
  single = λ c. rw m.intents (
      omega (
        arith,
        h.single c,
        count_where-update_le m.test (is_unsettled_of c) m.change
            (λ x u o. open_before c x (m.change x) (m.moves x u) o) s.db.intents,
      ));
  proofs =
      rw m.intents (
        All-update HasProof m.test m.change (λ x u p. (m.moves x u).proof p) s.db.intents h.proofs);
}

-- The first row of an identifier, before and after a transaction.
Change-intent :
    (db db' : Db) (id : String) {a : IntentRow}
    → Change db db'
    → intent_row db id ≡ some a
    → (b : IntentRow) × (intent_row db' id ≡ some b) × Lifeline a b
Change-intent db db' id {a = a} (same e) found =
    (a, rw e found, record { binding = same_binding a; fate = inl refl })
Change-intent db db' id {a = a} (inserts i) found = (
  a,
  rw i.intents (find_where-append (λ row. str_eq row.id id) db.intents (i.row ∷ []) found),
  record { binding = same_binding a; fate = inl refl },
)
Change-intent db db' id {a = a} (moves m) found =
    let after =
      find_where-update_kept (λ row. str_eq row.id id) m.test m.change
        (λ x u. ap (λ k. str_eq k id) (m.moves x u).binding.id) db.intents found in
    elim (Bool-cases (m.test a)) [
      | inl u ↦ (
        m.change a,
        rw m.intents (after ∙ rw u refl),
        record { binding = (m.moves a u).binding; fate = inr (m.moves a u).forward },
      )
      | inr u ↦ (
        a,
        rw m.intents (after ∙ rw u refl),
        record { binding = same_binding a; fate = inl refl },
      )
    ]

further :
    (a b c : IntentRow)
    → (b ≡ a) ⊎ (rank a.state < rank b.state)
    → (c ≡ b) ⊎ (rank b.state < rank c.state)
    → (c ≡ a) ⊎ (rank a.state < rank c.state)
further a b c (inl e) (inl f) = inl (f ∙ e)
further a b c (inl e) (inr l) = inr (subst (λ (r : IntentRow). rank r.state < rank c.state) e l)
further a b c (inr l) (inl f) =
    inr (subst (λ (r : IntentRow). rank a.state < rank r.state) (sym f) l)
further a b c (inr l) (inr k) = inr (omega (arith, l, k))

Lifeline-trans : (a b c : IntentRow) → Lifeline a b → Lifeline b c → Lifeline a c
Lifeline-trans a b c x y = record {
  binding = record {
    id = y.binding.id ∙ x.binding.id;
    component = y.binding.component ∙ x.binding.component;
    nonce = y.binding.nonce ∙ x.binding.nonce;
    incarnation = y.binding.incarnation ∙ x.binding.incarnation;
    digest = y.binding.digest ∙ x.binding.digest;
  };
  fate = further a b c x.fate y.fate;
}

-- A row of an identifier that lies on the line of `a`.
abbrev Lives : String → IntentRow → Store → Type 0
Lives id a s = (b : IntentRow) × (intent_row s.db id ≡ some b) × Lifeline a b

Change-Lives :
    (id : String) (a : IntentRow) (s : Store) (db : Db)
    → Lives id a s
    → Change s.db db
    → Lives id a (record s { db = db })
Change-Lives id a s db (b, found, line) change =
    let (c, after, next) = Change-intent s.db db id change found in
    (c, after, Lifeline-trans a b c line next)

module _ {Value : Type 0} (codec : Codec Value) (is_null : Value → Bool) where
  -- From an owned table of intents every history of launch calls and mode changes, whatever their
  -- answers, ends in an owned table: each component has at most one unsettled intent, and every
  -- row has the ownership proof that its state wants.
  pub launch_run-IsOwned :
      (s : Store) (ops : List (LaunchOp Value))
      → IsOwned s
      → IsOwned (launch_run codec is_null s ops)
  launch_run-IsOwned = launch_run-keeps codec is_null IsOwned Change-IsOwned

  -- Through every history of launch calls and mode changes an intent keeps its identifier,
  -- component, nonce, incarnation and digest, and its row is as it was or in a later state: no
  -- intent moves back, and a cleaned one stays as it is.
  pub launch_run-Lifeline :
      (s : Store) (ops : List (LaunchOp Value)) (id : String) {a : IntentRow}
      → intent_row s.db id ≡ some a
      → (b : IntentRow) × (intent_row (launch_run codec is_null s ops).db id ≡ some b)
        × Lifeline a b
  launch_run-Lifeline s ops id {a = a} found =
      launch_run-keeps codec is_null (Lives id a) (Change-Lives id a) s ops
        (a, found, record { binding = same_binding a; fate = inl refl })
