-- ===== src/Policy/Budget/Bounds.antt =====
-- What every history of calls keeps of a restart budget: its bound, and the age of its events.
use ascension_watchdog.Prelude.{
  ℕ, ◌+◌, ◌-◌, ◌≤◌, ◌≡◌, ◌++◌, List, [], ◌∷◌, max, arith, true, inl, inr,
}
use ascension_watchdog.Prelude.Tests.{ltb, leb, Bool-cases}
use ascension_watchdog.Prelude.Lists.{
  length, keep_where, All, length-keep_where, count_where-le-length, length-append,
}
use ascension_watchdog.Prelude.Word.{u32_max}
use ascension_watchdog.Policy.Budget.{
  RestartBudget, Call, observed, recorded, new, count, push, observe, record_event, step, run,
}

-- The events lie within the window that ends at the last observation.
abbrev pub AreRecent : ℕ → ℕ → List ℕ → Type 0
AreRecent oldest newest = All (λ event. (oldest ≤ event) × (event ≤ newest))

pub record IsBounded (b : RestartBudget) : Type 0 where
  pub limit_fits : b.max_events ≤ u32_max
  pub capped : length b.events ≤ b.max_events
  pub recent : AreRecent (b.last_elapsed_ms - b.window_ms) b.last_elapsed_ms b.events

keep_where-AreRecent :
    (lo lo' hi hi' : ℕ) (es : List ℕ)
    → hi ≤ hi'
    → AreRecent lo hi es
    → AreRecent lo' hi' (keep_where (λ event. leb lo' event) es)
keep_where-AreRecent lo lo' hi hi' [] h r = tt
keep_where-AreRecent lo lo' hi hi' (e ∷ es) h r =
    let rest = keep_where-AreRecent lo lo' hi hi' es h r.1 in ground (arith, rest)

append-AreRecent :
    (lo hi : ℕ) (es : List ℕ) → lo ≤ hi → AreRecent lo hi es → AreRecent lo hi (es ++ hi ∷ [])
append-AreRecent lo hi [] h r = ((h, omega arith), tt)
append-AreRecent lo hi (e ∷ es) h r = (r.0, append-AreRecent lo hi es h r.1)

keep_where-length : (k : ℕ) (es : List ℕ) → length (keep_where (λ e. leb k e) es) ≤ length es
keep_where-length k es =
    omega (arith, length-keep_where (λ e. leb k e) es, count_where-le-length (λ e. leb k e) es)

pub observe-IsBounded : (b : RestartBudget) (t : ℕ) → IsBounded b → IsBounded (observe b t).0
unfolding observe
observe-IsBounded b t v = record {
  limit_fits = v.limit_fits;
  capped =
      omega (arith, v.capped, keep_where-length (max b.last_elapsed_ms t - b.window_ms) b.events);
  recent = keep_where-AreRecent _ _ b.last_elapsed_ms _ b.events (omega arith) v.recent;
}

push-IsBounded :
    (c : RestartBudget) → length c.events + 1 ≤ c.max_events → IsBounded c → IsBounded (push c)
unfolding push
push-IsBounded c room v = record {
  limit_fits = v.limit_fits;
  capped = omega (arith, length-append c.events (c.last_elapsed_ms ∷ []));
  recent = append-AreRecent _ c.last_elapsed_ms c.events (omega arith) v.recent;
}

room_of :
    (b : RestartBudget) (t : ℕ)
    → IsBounded b
    → ltb (count (observe b t).0) b.max_events ≡ true
    → length (observe b t).0.events + 1 ≤ b.max_events
unfolding observe
room_of b t v h = ground (arith, v.limit_fits)

pub record_event-IsBounded :
    (b : RestartBudget) (t : ℕ) → IsBounded b → IsBounded (record_event b t).0
unfolding record_event
record_event-IsBounded b t v = elim (Bool-cases (ltb (count (observe b t).0) b.max_events)) [
  | inl room ↦ rw room (push-IsBounded _ (room_of b t v room) (observe-IsBounded b t v))
  | inr full ↦ rw full (observe-IsBounded b t v)
]

pub step-IsBounded : (b : RestartBudget) (c : Call) → IsBounded b → IsBounded (step b c)
unfolding step
step-IsBounded b (observed t) v = observe-IsBounded b t v
step-IsBounded b (recorded t) v = record_event-IsBounded b t v

run_from-IsBounded : (b : RestartBudget) (cs : List Call) → IsBounded b → IsBounded (run b cs)
unfolding run
run_from-IsBounded b [] v = v
run_from-IsBounded b (c ∷ cs) v = run_from-IsBounded (step b c) cs (step-IsBounded b c v)

new-IsBounded : (limit window : ℕ) → limit ≤ u32_max → IsBounded (new limit window)
unfolding new
new-IsBounded limit window h = record { limit_fits = h; capped = omega arith; recent = tt }

-- After any calls on a new budget it holds at most its limit of events, all within the window
-- that ends at the last observation.
pub run-IsBounded :
    (limit window : ℕ) (cs : List Call) → limit ≤ u32_max → IsBounded (run (new limit window) cs)
run-IsBounded limit window cs h = run_from-IsBounded _ cs (new-IsBounded limit window h)
