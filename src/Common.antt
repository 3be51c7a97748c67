-- ===== src/Common.antt =====
-- The crate dbgflow-common: errors, the single active job, text checks, proxies.
pub mod Json
pub mod Error
pub mod Job
pub mod Validation
pub mod Proxy
pub mod Examples
