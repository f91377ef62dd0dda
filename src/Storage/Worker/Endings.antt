-- ===== src/Storage/Worker/Endings.antt =====
-- What a successful completion and a successful acknowledgment checked, and the state that they
-- wrote.
pub mod Writes
pub mod Completions
pub mod Deliveries
