-- ===== src/Policy/Decide/Starts.antt =====
-- When the policy starts a component, and when it asks to be called again.
use ascension_watchdog.Prelude.{
  ℕ, ◌+◌, ◌<◌, ◌-◌, ◌≤◌, ◌<◌, ◌≡◌, ◌⊎◌, ◌↔◌, true, Option, none, some, List, arith, refl,
}
use ascension_watchdog.Prelude.Word.{u64_max}
use ascension_watchdog.Config.{DesiredMode}
use ascension_watchdog.Policy.Backoff.{SupervisorPolicy, backoff_delay_ms}
use ascension_watchdog.Policy.Decide.{
  ComponentState, ComponentObservation, Inputs, decide, start, wait, backoff_until,
}

-- The observed states from which a component may be launched: not running, or a start whose grace
-- period is over.
abbrev pub MayLaunch : SupervisorPolicy → ComponentObservation → ℕ → Type 0
MayLaunch p o now_ms =
    (o.state ≡ ComponentState.stopped)
    ⊎ (o.state ≡ ComponentState.suspect)
    ⊎ (o.state ≡ ComponentState.backoff)
    ⊎ ((o.state ≡ ComponentState.starting) × (p.startup_grace_ms < now_ms - o.observed_at_ms))

-- No restart is on record, or the delay has passed since the last; a deadline past the end of the
-- clock counts as its last tick.
abbrev pub BackoffOver : Option ℕ → ℕ → ℕ → Type 0
BackoffOver none delay now_ms = Unit
BackoffOver (some last) delay now_ms = (last + delay ≤ now_ms) ⊎ (u64_max ≤ now_ms)

-- Every condition of a launch.
pub record LaunchAllowed (sha256 : List ℕ → ℕ → ℕ) (p : SupervisorPolicy) (o : ComponentObservation)
    (i : Inputs) : Type 0 where
  pub intended : i.desired_mode ≡ DesiredMode.running
  pub enabled : i.restart_enabled ≡ true
  pub within_budget : i.restart_count_in_window < p.restart_budget_count
  pub launchable : MayLaunch p o i.now_ms
  pub backoff_over :
      BackoffOver i.last_restart_ms
        (backoff_delay_ms sha256 p o.component_id o.restart_attempts)
        i.now_ms

backoff_until-none :
    (last : Option ℕ) (delay now_ms : ℕ)
    → backoff_until last delay now_ms ≡ none
    → BackoffOver last delay now_ms
backoff_until-none none delay now_ms h = tt
backoff_until-none (some last) delay now_ms h = ground arith

BackoffOver-none :
    (last : Option ℕ) (delay now_ms : ℕ)
    → BackoffOver last delay now_ms
    → backoff_until last delay now_ms ≡ none
BackoffOver-none none delay now_ms h = refl
BackoffOver-none (some last) delay now_ms h = ground arith

module _ (sha256 : List ℕ → ℕ → ℕ) (p : SupervisorPolicy) (o : ComponentObservation)
    (i : Inputs) where
  start-LaunchAllowed : (decide sha256 p o i).action ≡ start → LaunchAllowed sha256 p o i
  unfolding decide
  start-LaunchAllowed h = record {
    intended = ground arith;
    enabled = ground arith;
    within_budget = ground arith;
    launchable = ground arith;
    backoff_over = backoff_until-none _ _ _ (ground arith);
  }

  LaunchAllowed-start : LaunchAllowed sha256 p o i → (decide sha256 p o i).action ≡ start
  unfolding decide
  LaunchAllowed-start h = ground (arith, BackoffOver-none _ _ _ h.backoff_over)

  -- The policy starts a component exactly when every condition of a launch holds.
  pub start_iff : ((decide sha256 p o i).action ≡ start) ↔ LaunchAllowed sha256 p o i
  start_iff = (start-LaunchAllowed, LaunchAllowed-start)

  -- Every deadline that is handed back waits: it comes with `wait` alone, and is not in the past.
  pub retry_at-wait :
      {t : ℕ}
      → i.now_ms ≤ u64_max
      → (decide sha256 p o i).retry_at_ms ≡ some t
      → ((decide sha256 p o i).action ≡ wait) × (i.now_ms ≤ t)
  unfolding decide
  retry_at-wait h e = ground arith
