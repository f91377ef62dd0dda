-- ===== src/Policy/Tests.antt =====
-- The policy at concrete inputs.
use ascension_watchdog.Prelude.{
  ℕ, ◌+◌, ◌-◌, ◌/◌, ◌≤◌, ◌≡◌, ◌↔◌, ◌⊎◌, ◌≢◌, ◌<◌, ◌*◌, refl, true, false, min, none, some, Option,
  List, [], ◌∷◌, arith,
}
use ascension_watchdog.Prelude.Word.{u64_max}
use ascension_watchdog.Config.{DesiredMode}
use ascension_watchdog.Policy.Budget.{Call, observed, recorded, new, record_event, step, run}
use ascension_watchdog.Policy.Budget.Bounds.{IsBounded, run-IsBounded}
use ascension_watchdog.Policy.Budget.Window.{in_window, log_of, window_bound}
use ascension_watchdog.Policy.Backoff.{SupervisorPolicy, exponential, backoff_delay_ms}
use ascension_watchdog.Policy.Backoff.Range.{backoff_delay_ms-range}
use ascension_watchdog.Policy.Decide.{
  ComponentState, ComponentObservation, Inputs, decide, start, wait, stop, quarantine, mark_suspect,
}
use ascension_watchdog.Policy.Decide.Starts.{MayLaunch, LaunchAllowed, start_iff, retry_at-wait}
use ascension_watchdog.Policy.Decide.Stops.{stop_iff, quarantine_iff, suspect_iff}

-- Two restarts in a window of 100 ms; the third is refused, and after the window one is admitted.
abbrev calls : List Call
calls = recorded 10 ∷ recorded 40 ∷ recorded 60 ∷ observed 5 ∷ recorded 120 ∷ []

calls_kept : (run (new 2 100) calls).events ≡ 40 ∷ 120 ∷ []
unfolding run step new record_event
calls_kept = refl

calls_logged : log_of (new 2 100) [] calls ≡ 120 ∷ 40 ∷ 10 ∷ []
unfolding log_of step new record_event
calls_logged = refl

run-IsBounded_example : IsBounded (run (new 2 100) calls)
run-IsBounded_example = run-IsBounded 2 100 calls (omega arith)

window_bound_example : in_window 100 120 (log_of (new 2 100) [] calls) ≤ 2
window_bound_example = window_bound 2 100 calls 120 (omega arith)

abbrev policy : SupervisorPolicy
policy = record {
  probe_interval_ms = 1000;
  suspect_threshold = 3;
  startup_grace_ms = 5000;
  restart_backoff_base_ms = 1000;
  restart_backoff_cap_ms = 60000;
  restart_budget_count = 5;
  restart_budget_window_ms = 600000;
}

-- A stand-in for SHA-256: the sum of the bytes.
abbrev sum_bytes : List ℕ → ℕ → ℕ
sum_bytes [] i = i
sum_bytes (b ∷ bs) i = b + sum_bytes bs i

backoff_delay_third : backoff_delay_ms sum_bytes policy "worker" 2 ≡ 4847
unfolding backoff_delay_ms
backoff_delay_third = refl

backoff_delay_ms-range_example :
    let delay = exponential policy 2 in
    let actual = backoff_delay_ms sum_bytes policy "worker" 2 in
    (delay - delay / 4 ≤ actual) × (actual ≤ delay + delay / 4) × (actual ≤ 60000)
backoff_delay_ms-range_example = backoff_delay_ms-range sum_bytes policy "worker" 2 (omega arith)

abbrev seen : ComponentState → ComponentObservation
seen state = record {
  component_id = "worker";
  state = state;
  observed_at_ms = 1000;
  heartbeat_age_ms = some 3001;
  progress_age_ms = none;
  consecutive_misses = 0;
  restart_attempts = 0;
}

abbrev inputs : DesiredMode → Inputs
inputs mode = record {
  desired_mode = mode;
  restart_enabled = true;
  now_ms = 9000;
  restart_count_in_window = 1;
  last_restart_ms = some 7000;
}

start_iff_example :
    let o = seen ComponentState.suspect in
    let i = inputs DesiredMode.running in
    ((decide sum_bytes policy o i).action ≡ start) ↔ LaunchAllowed sum_bytes policy o i
start_iff_example =
    start_iff sum_bytes policy (seen ComponentState.suspect) (inputs DesiredMode.running)

starts_after_backoff :
    (decide sum_bytes policy (seen ComponentState.suspect) (inputs DesiredMode.running)).action
    ≡ start
unfolding decide backoff_delay_ms
starts_after_backoff = refl

abbrev within_grace : Inputs
within_grace = record (inputs DesiredMode.running) { now_ms = 2000 }

retry_at-wait_example :
    ((decide sum_bytes policy (seen ComponentState.starting) within_grace).action ≡ wait)
    × (2000 ≤ 3000)
unfolding decide
retry_at-wait_example =
    retry_at-wait sum_bytes policy (seen ComponentState.starting) within_grace {t = 3000}
      (omega arith) refl

stop_iff_example :
    ((decide sum_bytes policy (seen ComponentState.running) (inputs DesiredMode.draining)).action
      ≡ stop)
    ↔ (((DesiredMode.draining ≡ DesiredMode.stopped)
          ⊎ (DesiredMode.draining ≡ DesiredMode.draining))
        × (ComponentState.running ≢ ComponentState.stopped))
stop_iff_example =
    stop_iff sum_bytes policy (seen ComponentState.running) (inputs DesiredMode.draining)

quarantine_iff_example :
    ((decide sum_bytes policy (seen ComponentState.blocked) (inputs DesiredMode.running)).action
      ≡ quarantine)
    ↔ ((DesiredMode.running ≡ DesiredMode.running)
        × ((ComponentState.blocked ≡ ComponentState.blocked)
            ⊎ (ComponentState.blocked ≡ ComponentState.quarantined)
            ⊎ (MayLaunch policy (seen ComponentState.blocked) (inputs DesiredMode.running).now_ms
                × (((inputs DesiredMode.running).restart_enabled ≡ false)
                    ⊎ (5 ≤ (inputs DesiredMode.running).restart_count_in_window)))))
quarantine_iff_example =
    quarantine_iff sum_bytes policy (seen ComponentState.blocked) (inputs DesiredMode.running)

suspect_iff_example :
    ((decide sum_bytes policy (seen ComponentState.running) (inputs DesiredMode.running)).action
      ≡ mark_suspect)
    ↔ ((DesiredMode.running ≡ DesiredMode.running)
        × (ComponentState.running ≡ ComponentState.running)
        × ((3 ≤ 0)
            ⊎ (◌≡◌ {A = Option ℕ} (some 3001) none)
            ⊎ ((age : ℕ) × (◌≡◌ {A = Option ℕ} (some 3001) (some age))
                × (min (1000 * 3) u64_max < age))))
suspect_iff_example =
    suspect_iff sum_bytes policy (seen ComponentState.running) (inputs DesiredMode.running)
