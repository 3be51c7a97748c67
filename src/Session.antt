-- ===== src/Session.antt =====
-- crates/dbgflow-debug/src/session: the debug sessions, their workers and their audit trail.
pub mod State
pub mod Target
pub mod Artifact
pub mod Operation
pub mod Registry
pub mod Audit
pub mod Manager
pub mod Create
pub mod Close
pub mod Startup
pub mod Eval
pub mod Monitor
pub mod Lifecycle
pub mod Worker
pub mod Examples
