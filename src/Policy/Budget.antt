-- ===== src/Policy/Budget.antt =====
-- crates/watchdog/src/policy.rs, `RestartBudget`: a bounded restart budget over monotonic time.
pub mod Bounds
pub mod Window
use ascension_watchdog.Prelude.{ℕ, ◌-◌, ◌++◌, Bool, ◌&&◌, List, [], ◌∷◌, min, max}
use ascension_watchdog.Prelude.Tests.{ltb, leb, if◌then◌else◌}
use ascension_watchdog.Prelude.Lists.{length, keep_where}
use ascension_watchdog.Prelude.Word.{u32_max}

pub record RestartBudget : Type 0 where
  pub max_events : ℕ
  pub window_ms : ℕ
  pub last_elapsed_ms : ℕ
  pub events : List ℕ

unfoldable pub new : ℕ → ℕ → RestartBudget
new max_events window_ms = record {
  max_events = max_events;
  window_ms = window_ms;
  last_elapsed_ms = 0;
  events = [];
}

-- `u32::try_from(self.events.len()).unwrap_or(u32::MAX)`
unfoldable pub count : RestartBudget → ℕ
count b = min (length b.events) u32_max

-- `&mut self` methods return the new budget and the value. `Vec::retain` keeps the order.
unfoldable pub observe : RestartBudget → ℕ → RestartBudget × ℕ
unfolding count
observe b elapsed_ms =
    let last = max b.last_elapsed_ms elapsed_ms in
    let cutoff = last - b.window_ms in
    let c = record b {
      last_elapsed_ms = last;
      events = keep_where (λ event. leb cutoff event) b.events;
    } in
    (c, count c)

-- `self.events.push(self.last_elapsed_ms)`
unfoldable pub push : RestartBudget → RestartBudget
push c = record c { events = c.events ++ c.last_elapsed_ms ∷ [] }

-- `RestartBudget::record`
unfoldable pub record_event : RestartBudget → ℕ → RestartBudget × ℕ
unfolding observe count push
record_event b elapsed_ms =
    let (c, n) = observe b elapsed_ms in
    let d = if ltb n c.max_events then push c else c in (d, count d)

-- `self.max_events as usize` widens a `u32`.
unfoldable pub admits_restart : RestartBudget → Bool
admits_restart b = ltb 0 b.max_events && ltb (length b.events) b.max_events

-- One call on a budget, and a history of calls.
pub data Call : Type 0 where
  observed : ℕ → Call
  recorded : ℕ → Call

unfoldable pub step : RestartBudget → Call → RestartBudget
step b (observed t) = (observe b t).0
step b (recorded t) = (record_event b t).0

unfoldable pub run : RestartBudget → List Call → RestartBudget
run b [] = b
run b (c ∷ cs) = run (step b c) cs
