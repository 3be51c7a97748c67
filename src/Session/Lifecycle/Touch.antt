-- ===== src/Session/Lifecycle/Touch.antt =====
-- Each section of session/manager.rs writes one session at most, along the state machine.
pub mod Defs
pub mod Operations
pub mod Closing
pub mod Starting
pub mod Evals
