-- ===== src/Reverse.antt =====
-- crates/dbgflow-reverse: sessions of the disassembler IDA behind a supervisor process.
pub mod Model
pub mod Upstream
pub mod Tools
pub mod Target
pub mod Manager
pub mod Examples
