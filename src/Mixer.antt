-- ===== src/Mixer.antt =====
-- crates/openwave-runtime/src/mixer.rs: the sinks that the mixer creates and removes.
pub mod Graph
pub mod Links
pub mod Sinks
pub mod Ensure
pub mod Cleanup
pub mod Restore
pub mod Owned
pub mod Examples
