-- ===== src/Health.antt =====
-- crates/openwave-core/src/health.rs: the watches over captures and sinks.
pub mod Glitch
pub mod Stall
pub mod Sink
pub mod Capture
pub mod Watch
pub mod Parse
pub mod Graph
pub mod Examples
