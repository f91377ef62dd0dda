-- ===== src/Policy.antt =====
-- crates/watchdog/src/policy.rs: the deterministic reconciliation policy.
-- Times are `u64` milliseconds as natural numbers; the saturating operations are written out.
pub mod Budget
pub mod Backoff
pub mod Decide
pub mod Tests
