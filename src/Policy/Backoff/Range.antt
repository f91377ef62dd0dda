-- ===== src/Policy/Backoff/Range.antt =====
-- The range of the restart delay, and its growth with the attempts.
use native.Mathlib.Nat.{pow-le-pow_right}
use ascension_watchdog.Prelude.{ℕ, ◌+◌, ◌-◌, ◌*◌, ◌/◌, ◌^◌, ◌≤◌, String, List, min, arith}
use ascension_watchdog.Prelude.Word.{u64_max}
use ascension_watchdog.Policy.Backoff.{SupervisorPolicy, exponential, backoff_delay_ms}

-- The delay lies within a quarter of the exponential delay, and below the cap; no bound is lost
-- to the saturating arithmetic, whatever the digest.
pub backoff_delay_ms-range :
    (sha256 : List ℕ → ℕ → ℕ) (p : SupervisorPolicy) (component_id : String) (attempt : ℕ)
    → p.restart_backoff_cap_ms ≤ u64_max
    → let delay = exponential p attempt in
      let actual = backoff_delay_ms sha256 p component_id attempt in
      (delay - delay / 4 ≤ actual)
      × (actual ≤ delay + delay / 4)
      × (actual ≤ p.restart_backoff_cap_ms)
unfolding backoff_delay_ms
backoff_delay_ms-range sha256 p component_id attempt h = ground arith

mul_mono : (k a b : ℕ) → a ≤ b → k * a ≤ k * b
mul_mono k a b h = grind arith

-- More attempts never shorten the delay before jitter.
pub exponential_mono : (p : SupervisorPolicy) (a b : ℕ) → a ≤ b → exponential p a ≤ exponential p b
unfolding exponential
exponential_mono p a b h =
    let doubled : 2 ^ min a 31 ≤ 2 ^ min b 31 = pow-le-pow_right (omega arith) (omega arith) in
    omega (arith, mul_mono p.restart_backoff_base_ms _ _ doubled)
