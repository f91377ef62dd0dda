-- ===== src/Policy/Backoff.antt =====
-- crates/watchdog/src/policy.rs, `SupervisorPolicy::from_config`, `backoff_delay_ms` and the two
-- window tests. SHA-256 is an argument: the bytes of the digest by index.
pub mod Range
use ascension_watchdog.Prelude.{
  ℕ, ◌+◌, ◌-◌, ◌*◌, ◌/◌, ◌%◌, ◌^◌, Bool, String, List, [], ◌∷◌, ◌++◌, min,
}
use ascension_watchdog.Prelude.Tests.{leb, ◌==◌, if◌then◌else◌}
use ascension_watchdog.Prelude.Word.{saturating_add, saturating_mul}
use ascension_watchdog.Prelude.Text.{as_bytes}
use ascension_watchdog.Config.{WatchdogConfig}
use ascension_watchdog.Policy.Budget
use ascension_watchdog.Policy.Budget.{RestartBudget}

pub record SupervisorPolicy : Type 0 where
  pub probe_interval_ms : ℕ
  pub suspect_threshold : ℕ
  pub startup_grace_ms : ℕ
  pub restart_backoff_base_ms : ℕ
  pub restart_backoff_cap_ms : ℕ
  pub restart_budget_count : ℕ
  pub restart_budget_window_ms : ℕ

unfoldable pub from_config : WatchdogConfig → SupervisorPolicy
from_config config = record {
  probe_interval_ms = config.probe_interval_ms;
  suspect_threshold = config.suspect_threshold;
  startup_grace_ms = saturating_mul config.startup_grace_secs 1000;
  restart_backoff_base_ms = saturating_mul config.restart_backoff_base_secs 1000;
  restart_backoff_cap_ms = saturating_mul config.restart_backoff_cap_secs 1000;
  restart_budget_count = config.restart_budget_count;
  restart_budget_window_ms = saturating_mul config.restart_budget_window_secs 1000;
}

-- `attempt.to_le_bytes()` of a `u32`.
unfoldable pub to_le_bytes : ℕ → List ℕ
to_le_bytes n = n % 256 ∷ n / 256 % 256 ∷ n / 65536 % 256 ∷ n / 16777216 % 256 ∷ []

-- The delay before jitter: the base doubled `attempt` times, 31 at most, up to the cap.
unfoldable pub exponential : SupervisorPolicy → ℕ → ℕ
exponential p attempt =
    min (saturating_mul p.restart_backoff_base_ms (2 ^ min attempt 31)) p.restart_backoff_cap_ms

unfoldable pub backoff_delay_ms : (List ℕ → ℕ → ℕ) → SupervisorPolicy → String → ℕ → ℕ
unfolding exponential to_le_bytes
backoff_delay_ms sha256 p component_id attempt =
    let delay = exponential p attempt in
    let digest = sha256 (as_bytes component_id ++ to_le_bytes attempt) in
    let spread = delay / 4 in
    let sample = digest 0 + 256 * digest 1 in
    let jitter = sample % saturating_add (saturating_mul spread 2) 1 in
    if spread == 0
    then delay
    else min (saturating_add (delay - spread) jitter) p.restart_backoff_cap_ms

unfoldable pub in_restart_window : SupervisorPolicy → ℕ → ℕ → Bool
in_restart_window p now_ms started_ms = leb (now_ms - started_ms) p.restart_budget_window_ms

unfoldable pub in_monotonic_restart_window : SupervisorPolicy → ℕ → ℕ → Bool
in_monotonic_restart_window p elapsed_ms event_elapsed_ms =
    leb (elapsed_ms - event_elapsed_ms) p.restart_budget_window_ms

unfoldable pub restart_budget : SupervisorPolicy → RestartBudget
restart_budget p = Budget.new p.restart_budget_count p.restart_budget_window_ms
