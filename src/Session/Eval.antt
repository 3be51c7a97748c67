-- ===== src/Session/Eval.antt =====
-- `eval` of crates/dbgflow-debug/src/session/manager.rs. `Eval/Operation` has the three sections
-- under the sessions' lock, `Eval/Run` the calls that an eval makes.
pub mod Operation
pub mod Run
pub mod Outcome
pub mod Refusal
