-- ===== src/Trace.antt =====
-- The crate dbgflow-trace: TTD recordings and profiles.
pub mod Ttd
pub mod Etw
pub mod Profile
pub mod Examples
