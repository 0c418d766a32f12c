-- ===== src/Proxy.antt =====
-- The credential proxy: harness/proxy.
pub mod Pool
pub mod Requests
pub mod Gateway
mod Tests
