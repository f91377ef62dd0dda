-- ===== src/Policy/Decide/Stops.antt =====
-- When the policy stops a component, sets it aside, and suspects it.
use ascension_watchdog.Prelude.{
  ℕ, ◌≡◌, ◌≢◌, ◌⊎◌, ◌↔◌, none, some, List, arith, ◌<◌, ◌*◌, ◌≤◌, false, min,
}
use ascension_watchdog.Prelude.Word.{u64_max}
use ascension_watchdog.Config.{DesiredMode}
use ascension_watchdog.Policy.Backoff.{SupervisorPolicy}
use ascension_watchdog.Policy.Decide.Starts.{MayLaunch}
use ascension_watchdog.Policy.Decide.{
  ComponentState, ComponentObservation, Inputs, decide, stop, mark_suspect, quarantine,
}

module _ (sha256 : List ℕ → ℕ → ℕ) (p : SupervisorPolicy) (o : ComponentObservation)
    (i : Inputs) where
  -- A stop is decided exactly when the intent is to stop or drain and the component is not stopped.
  pub stop_iff : ((decide sha256 p o i).action ≡ stop) ↔ (
      ((i.desired_mode ≡ DesiredMode.stopped) ⊎ (i.desired_mode ≡ DesiredMode.draining))
      × (o.state ≢ ComponentState.stopped))
  unfolding decide
  stop_iff = (λ h. (ground arith, λ e. ground arith), λ h. ground arith)

  -- A component is set aside exactly when the deployment is to run and either it is blocked or
  -- quarantined already, or it is due for a launch, from a state that may be launched, and its
  -- restarts are disabled or its budget is spent.
  pub quarantine_iff : ((decide sha256 p o i).action ≡ quarantine) ↔ (
      (i.desired_mode ≡ DesiredMode.running)
      × ((o.state ≡ ComponentState.blocked)
          ⊎ (o.state ≡ ComponentState.quarantined)
          ⊎ (MayLaunch p o i.now_ms
              × ((i.restart_enabled ≡ false)
                  ⊎ (p.restart_budget_count ≤ i.restart_count_in_window)))))
  unfolding decide
  quarantine_iff = (λ e. ground arith, λ e. ground arith)

  -- A component is suspected exactly when it runs, the deployment is to run, and it missed too many
  -- heartbeats, has none, or its last is older than `suspect_threshold` probe intervals, a product
  -- that stops at the largest `u64`.
  pub suspect_iff : ((decide sha256 p o i).action ≡ mark_suspect) ↔ (
      (i.desired_mode ≡ DesiredMode.running)
      × (o.state ≡ ComponentState.running)
      × ((p.suspect_threshold ≤ o.consecutive_misses)
          ⊎ (o.heartbeat_age_ms ≡ none)
          ⊎ ((age : ℕ) × (o.heartbeat_age_ms ≡ some age)
              × (min (p.probe_interval_ms * p.suspect_threshold) u64_max < age))))
  unfolding decide
  suspect_iff = (λ e. ground arith, λ e. ground arith)
