-- ===== src/Storage/Worker.antt =====
-- crates/watchdog/src/storage_worker_*.rs: the durable hand-off of a queued episode to the worker.
-- The binding and the control of the worker are singletons; a hand-off is a row that moves from
-- its preparation to its acknowledgment, each move a whole transaction.
pub mod Types
pub mod Outside
pub mod Validate
pub mod Control
pub mod Jobs
pub mod Rows
pub mod Consistency
pub mod Queries
pub mod Claim
pub mod Dispatch
pub mod Complete
pub mod Acknowledge
pub mod Life
pub mod Inversions
pub mod Endings
pub mod Counts
pub mod Claims
pub mod Controls
pub mod Kept
pub mod Cycle
pub mod Exclusive
pub mod Lives
pub mod Loaded
pub mod Once
pub mod Repeat
pub mod Final
pub mod Gates
pub mod Handed
pub mod Reconcile
pub mod Held
pub mod Tests
