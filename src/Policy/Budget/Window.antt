-- ===== src/Policy/Budget/Window.antt =====
-- The rate that a restart budget allows: no window of its length sees more restarts than its limit.
use mathlib.Core.Path.{subst₂}
use ascension_watchdog.Prelude.{
  ℕ, zero, suc, ◌+◌, ◌++◌, ap, ◌-◌, ◌≤◌, ◌≡◌, refl, List, [], ◌∷◌, max, arith, inl, inr, ◌&&◌, true,
  ◌∙◌, sym,
}
use ascension_watchdog.Prelude.Tests.{leb, ltb, Bool-cases, if◌then◌else◌}
use ascension_watchdog.Prelude.Lists.{
  length, keep_where, count_where, All, length-keep_where, count_where-append,
}
use ascension_watchdog.Prelude.Word.{u32_max}
use ascension_watchdog.Policy.Budget.{
  RestartBudget, Call, observed, recorded, new, count, push, observe, record_event, step,
}

-- The list without its first `n` elements.
abbrev drop : ℕ → List ℕ → List ℕ
drop zero xs = xs
drop (suc n) [] = []
drop (suc n) (x ∷ xs) = drop n xs

-- The times of the restarts that were admitted, newest first: a call of `record` admits what the
-- budget holds after it, beyond what an observation at the same time leaves of it.
abbrev pub log_step : RestartBudget → List ℕ → Call → List ℕ
log_step b log (observed t) = log
log_step b log (recorded t) =
    drop (length (observe b t).0.events) (record_event b t).0.events ++ log

unfoldable pub log_of : RestartBudget → List ℕ → List Call → List ℕ
log_of b log [] = log
log_of b log (c ∷ cs) = log_of (step b c) (log_step b log c) cs

-- How many times lie in the closed window of length `w` that ends at `t`.
abbrev pub in_window : ℕ → ℕ → List ℕ → ℕ
in_window w t = count_where (λ x. leb (t - w) x && leb x t)

-- Newest first, and each time ends a window with at most `limit` times.
abbrev Spaced : ℕ → ℕ → List ℕ → Type 0
Spaced limit w [] = Unit
Spaced limit w (x ∷ log) =
    (count_where (leb (x - w)) (x ∷ log) ≤ limit) × All (λ y. y ≤ x) log × Spaced limit w log

record Tracks (b : RestartBudget) (log : List ℕ) : Type 0 where
  limit_fits : b.max_events ≤ u32_max
  spaced : Spaced b.max_events b.window_ms log
  past : All (λ y. y ≤ b.last_elapsed_ms) log
  held :
      (k : ℕ)
      → b.last_elapsed_ms - b.window_ms ≤ k
      → count_where (leb k) b.events ≡ count_where (leb k) log

All-le : (m n : ℕ) (l : List ℕ) → m ≤ n → All (λ y. y ≤ m) l → All (λ y. y ≤ n) l
All-le m n [] h a = tt
All-le m n (x ∷ l) h a = (omega arith, All-le m n l h a.1)

count_where-keep_where :
    (c k : ℕ) (l : List ℕ)
    → c ≤ k
    → count_where (leb k) (keep_where (λ e. leb c e) l) ≡ count_where (leb k) l
count_where-keep_where c k [] h = refl
count_where-keep_where c k (x ∷ l) h = ground (arith, count_where-keep_where c k l h)

count_where-keep_where_self :
    (c : ℕ) (l : List ℕ) → length (keep_where (λ e. leb c e) l) ≡ count_where (leb c) l
count_where-keep_where_self c l = length-keep_where (λ e. leb c e) l

in_window-le-count :
    (w x t : ℕ) (l : List ℕ) → x ≤ t → in_window w t l ≤ count_where (leb (x - w)) l
in_window-le-count w x t [] h = omega arith
in_window-le-count w x t (y ∷ l) h = ground (arith, in_window-le-count w x t l h)

Spaced-in_window : (limit w t : ℕ) (l : List ℕ) → Spaced limit w l → in_window w t l ≤ limit
Spaced-in_window limit w t [] s = omega arith
Spaced-in_window limit w t (x ∷ l) s = elim (Bool-cases (leb x t)) [
  | inl le ↦ ground (arith, in_window-le-count w x t (x ∷ l))
  | inr gt ↦ rw gt (ground (arith, Spaced-in_window limit w t l s.2))
]

observe-Tracks :
    (b : RestartBudget) (t : ℕ) (log : List ℕ) → Tracks b log → Tracks (observe b t).0 log
unfolding observe
observe-Tracks b t log v = record {
  limit_fits = v.limit_fits;
  spaced = v.spaced;
  past = All-le b.last_elapsed_ms _ log (omega arith) v.past;
  held = λ k h.
      count_where-keep_where (max b.last_elapsed_ms t - b.window_ms) k b.events h
      ∙ v.held k (omega arith);
}

observe-held :
    (b : RestartBudget) (t : ℕ)
    → let c = (observe b t).0 in
      length c.events ≡ count_where (leb (c.last_elapsed_ms - c.window_ms)) c.events
unfolding observe
observe-held b t =
    let cutoff = max b.last_elapsed_ms t - b.window_ms in
    count_where-keep_where_self cutoff b.events
    ∙ sym (count_where-keep_where cutoff cutoff b.events (omega arith))

push-Tracks :
    (c : RestartBudget) (log : List ℕ)
    → count_where (leb (c.last_elapsed_ms - c.window_ms)) log + 1 ≤ c.max_events
    → Tracks c log
    → Tracks (push c) (c.last_elapsed_ms ∷ log)
unfolding push
push-Tracks c log room v = record {
  limit_fits = v.limit_fits;
  spaced = (ground arith, v.past, v.spaced);
  past = (omega arith, v.past);
  held = λ k h.
      ground (arith, count_where-append (leb k) c.events (c.last_elapsed_ms ∷ []), v.held k h);
}

-- `ltb` on the clipped count leaves room among the admitted restarts.
room_of :
    (b : RestartBudget) (t : ℕ) (log : List ℕ)
    → Tracks b log
    → let c = (observe b t).0 in
      ltb (count c) c.max_events ≡ true
      → count_where (leb (c.last_elapsed_ms - c.window_ms)) log + 1 ≤ c.max_events
unfolding count
room_of b t log v h =
    let c = (observe b t).0 in
    let w = observe-Tracks b t log v in
    ground (
      arith,
      observe-held b t,
      w.held (c.last_elapsed_ms - c.window_ms) (omega arith),
      w.limit_fits,
    )

drop-all : (xs : List ℕ) → drop (length xs) xs ≡ []
drop-all [] = refl
drop-all (x ∷ xs) = drop-all xs

drop-append : (xs ys : List ℕ) → drop (length xs) (xs ++ ys) ≡ ys
drop-append [] ys = refl
drop-append (x ∷ xs) ys = drop-append xs ys

-- What a call of `record` adds to the log.
log_step-record :
    (b : RestartBudget) (t : ℕ) (log : List ℕ)
    → let c = (observe b t).0 in
      log_step b log (recorded t)
      ≡ (if ltb (count c) c.max_events then c.last_elapsed_ms ∷ log else log)
unfolding record_event push observe
log_step-record b t log =
    let c = (observe b t).0 in
    elim (Bool-cases (ltb (count c) c.max_events)) [
      | inl room ↦
          rw room (ap (λ added. added ++ log) (drop-append c.events (c.last_elapsed_ms ∷ [])))
      | inr full ↦ rw full (ap (λ added. added ++ log) (drop-all c.events))
    ]

step-Tracks :
    (b : RestartBudget) (log : List ℕ) (c : Call)
    → Tracks b log
    → Tracks (step b c) (log_step b log c)
unfolding step record_event
step-Tracks b log (observed t) v = observe-Tracks b t log v
step-Tracks b log (recorded t) v =
    rw (log_step-record b t log)
      (elim (Bool-cases (ltb (count (observe b t).0) (observe b t).0.max_events)) [
        | inl room ↦ rw room (push-Tracks _ log (room_of b t log v room) (observe-Tracks b t log v))
        | inr full ↦ rw full (observe-Tracks b t log v)
      ])

step-limits :
    (b : RestartBudget) (c : Call)
    → ((step b c).max_events ≡ b.max_events) × ((step b c).window_ms ≡ b.window_ms)
unfolding step record_event observe push
step-limits b (observed t) = ground arith
step-limits b (recorded t) = ground arith

log_of-Spaced :
    (b : RestartBudget) (log : List ℕ) (cs : List Call)
    → Tracks b log
    → Spaced b.max_events b.window_ms (log_of b log cs)
unfolding log_of
log_of-Spaced b log [] v = v.spaced
log_of-Spaced b log (c ∷ cs) v =
    let rest = log_of-Spaced (step b c) (log_step b log c) cs (step-Tracks b log c v) in
    let (m, w) = step-limits b c in
    subst₂ (λ limit window. Spaced limit window (log_of (step b c) (log_step b log c) cs)) m w rest

-- Whatever the calls on a new budget whose limit is a `u32`, clocks that run backward included, no
-- closed window of the budget's length holds more admitted restarts than the limit.
pub window_bound :
    (limit window : ℕ) (cs : List Call) (t : ℕ)
    → limit ≤ u32_max
    → in_window window t (log_of (new limit window) [] cs) ≤ limit
unfolding new
window_bound limit window cs t h = Spaced-in_window limit window t _ (
    log_of-Spaced (new limit window) [] cs
      (record { limit_fits = h; spaced = tt; past = tt; held = λ k p. refl }))
