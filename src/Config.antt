-- ===== src/Config.antt =====
-- crates/watchdog/src/config.rs: the durable operator intent, and what the policy reads of the
-- validated configuration.
use ascension_watchdog.Prelude.{ℕ, Bool, true, false}

pub data DesiredMode : Type 0 where
  stopped paused running draining : DesiredMode

pub DesiredMode-discrete : Discrete DesiredMode
DesiredMode-discrete = hlevel

unfoldable pub admits_work : DesiredMode → Bool
admits_work running = true
admits_work _ = false

unfoldable pub stops_children : DesiredMode → Bool
stops_children stopped = true
stops_children _ = false

-- The fields of `WatchdogConfig` that `SupervisorPolicy::from_config` reads.
pub record WatchdogConfig : Type 0 where
  pub probe_interval_ms : ℕ
  pub suspect_threshold : ℕ
  pub startup_grace_secs : ℕ
  pub restart_backoff_base_secs : ℕ
  pub restart_backoff_cap_secs : ℕ
  pub restart_budget_count : ℕ
  pub restart_budget_window_secs : ℕ
