-- ===== src/Recovery.antt =====
-- crates/openwave-runtime/src/recovery.rs: the commands that recover a capture or an output.
pub mod Discovery
pub mod Session
pub mod Steps
