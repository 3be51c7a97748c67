-- ===== src/Session/Lifecycle.antt =====
-- How the sections of crates/dbgflow-debug/src/session/manager.rs move a session's state.
pub mod Edge
pub mod Frame
pub mod Touch
pub mod Steps
pub mod Changes
pub mod Safety
pub mod Unique
pub mod Reopen
pub mod Closing
