-- ===== src/Routing.antt =====
-- crates/openwave-core/src/routing.rs.
pub mod Mutes
pub mod Groups
pub mod Output
pub mod Claims
pub mod Properties
pub mod Examples
