-- ===== src/Policy/Decide.antt =====
-- crates/watchdog/src/policy.rs, `SupervisorPolicy::decide` and `restart_decision`.
pub mod Starts
pub mod Stops
use ascension_watchdog.Prelude.{
  ℕ, ◌-◌, ◌<◌, Bool, true, false, not, ◌||◌, Option, none, some, String, List,
}
use ascension_watchdog.Prelude.Tests.{ltb, leb, if◌then◌else◌}
use ascension_watchdog.Prelude.Word.{saturating_add, saturating_mul}
use ascension_watchdog.Config.{DesiredMode, stops_children}
use ascension_watchdog.Policy.Backoff.{SupervisorPolicy, backoff_delay_ms}

pub data ComponentState : Type 0 where
  stopped starting running suspect backoff paused blocked quarantined : ComponentState

pub record ComponentObservation : Type 0 where
  pub component_id : String
  pub state : ComponentState
  pub observed_at_ms : ℕ
  pub heartbeat_age_ms : Option ℕ
  pub progress_age_ms : Option ℕ
  pub consecutive_misses : ℕ
  pub restart_attempts : ℕ

pub data ReconcileAction : Type 0 where
  noop start stop wait mark_suspect quarantine : ReconcileAction

pub record ReconcileDecision : Type 0 where
  pub component_id : String
  pub action : ReconcileAction
  pub resulting_state : ComponentState
  pub reason : String
  pub retry_at_ms : Option ℕ

-- What a caller hands to `decide`, apart from the policy and the observation.
pub record Inputs : Type 0 where
  pub desired_mode : DesiredMode
  pub restart_enabled : Bool
  pub now_ms : ℕ
  pub restart_count_in_window : ℕ
  pub last_restart_ms : Option ℕ

abbrev is_stopped : ComponentState → Bool
is_stopped ComponentState.stopped = true
is_stopped _ = false

abbrev is_draining : DesiredMode → Bool
is_draining DesiredMode.draining = true
is_draining _ = false

abbrev is_running_mode : DesiredMode → Bool
is_running_mode DesiredMode.running = true
is_running_mode _ = false

-- A decision for the observed component.
abbrev decision :
    ComponentObservation → ReconcileAction → ComponentState → String → Option ℕ → ReconcileDecision
decision o action state reason retry = record {
  component_id = o.component_id;
  action = action;
  resulting_state = state;
  reason = reason;
  retry_at_ms = retry;
}

-- `heartbeat_age_ms.is_none_or(|age| age > limit)`
abbrev is_stale : Option ℕ → ℕ → Bool
is_stale none limit = true
is_stale (some age) limit = ltb limit age

-- The end of the backoff that still runs, if one does.
abbrev backoff_until : Option ℕ → ℕ → ℕ → Option ℕ
backoff_until none delay now_ms = none
backoff_until (some last_restart) delay now_ms =
    let next = saturating_add last_restart delay in if ltb now_ms next then some next else none

abbrev start_or_wait : ComponentObservation → String → Option ℕ → ReconcileDecision
start_or_wait o reason none = decision o start ComponentState.starting reason none
start_or_wait o reason (some next) =
    decision o wait ComponentState.backoff "restart backoff is still active" (some next)

restart_decision :
    (List ℕ → ℕ → ℕ) → SupervisorPolicy → ComponentObservation → Inputs → String → ReconcileDecision
restart_decision sha256 p o i reason =
    let delay = backoff_delay_ms sha256 p o.component_id o.restart_attempts in
    if not i.restart_enabled
    then decision o quarantine ComponentState.quarantined
        "component restart is disabled by the approved configuration" none
    else if leb p.restart_budget_count i.restart_count_in_window
    then decision o quarantine ComponentState.quarantined
        "restart budget exhausted; bounded diagnostics remain available" none
    else start_or_wait o reason (backoff_until i.last_restart_ms delay i.now_ms)

-- The `match observation.state` of a deployment that is to run.
decide_state :
    (List ℕ → ℕ → ℕ)
    → SupervisorPolicy
    → ComponentState
    → ComponentObservation
    → Inputs
    → ReconcileDecision
unfolding restart_decision
decide_state sha256 p ComponentState.running o i =
    let heartbeat_limit = saturating_mul p.probe_interval_ms p.suspect_threshold in
    if leb p.suspect_threshold o.consecutive_misses || is_stale o.heartbeat_age_ms heartbeat_limit
    then decision o mark_suspect ComponentState.suspect
        "missing or stale control-loop heartbeat; process liveness is insufficient" none
    else decision o noop ComponentState.running "component is making progress within health bounds"
        none
decide_state sha256 p ComponentState.starting o i =
    if leb (i.now_ms - o.observed_at_ms) p.startup_grace_ms
    then decision o wait ComponentState.starting "startup remains within configured grace period"
        (some (saturating_add i.now_ms p.probe_interval_ms))
    else restart_decision sha256 p o i "startup grace expired"
decide_state sha256 p ComponentState.stopped o i =
    restart_decision sha256 p o i "component is not running"
decide_state sha256 p ComponentState.suspect o i =
    restart_decision sha256 p o i "component is not running"
decide_state sha256 p ComponentState.backoff o i =
    restart_decision sha256 p o i "component is not running"
decide_state sha256 p ComponentState.paused o i =
    decision o wait ComponentState.paused "component remains paused by durable operator intent" none
decide_state sha256 p ComponentState.blocked o i =
    decision o quarantine ComponentState.quarantined
      "component is blocked or quarantined; autonomous relaunch is disabled" none
decide_state sha256 p ComponentState.quarantined o i =
    decision o quarantine ComponentState.quarantined
      "component is blocked or quarantined; autonomous relaunch is disabled" none

unfoldable pub decide :
    (List ℕ → ℕ → ℕ) → SupervisorPolicy → ComponentObservation → Inputs → ReconcileDecision
unfolding decide_state stops_children
decide sha256 p o i =
    if stops_children i.desired_mode
    then decision o (if is_stopped o.state then noop else stop) ComponentState.stopped
        "durable stop intent takes precedence over autonomous recovery" none
    else if is_draining i.desired_mode
    then decision o (if is_stopped o.state then noop else stop) ComponentState.stopped
        "drain intent prevents new starts and stops owned children" none
    else if not (is_running_mode i.desired_mode)
    then decision o (if is_stopped o.state then noop else wait) ComponentState.paused
        "operator intent blocks new starts and dispatch" none
    else decide_state sha256 p o.state o i
