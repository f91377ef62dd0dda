-- ===== src/Storage.antt =====
-- crates/watchdog/src/storage.rs and its siblings: the owner-local durable store.
pub mod Db
pub mod Metadata
pub mod Jobs
pub mod Launch
pub mod Components
pub mod Worker
