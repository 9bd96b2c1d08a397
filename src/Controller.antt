-- ===== src/Controller.antt =====
-- crates/openwave-runtime/src/controller.rs and controller/state.rs: the commands of the clients.
pub mod Keys
pub mod Requests
pub mod Steps
pub mod Jobs
pub mod Exit
