-- ===== src/Storage.antt =====
-- Durable attempts: harness/session/session_manager.py, harness/session/models.py,
-- harness/self_refine/recovery.py and harness/utils/retry.py.
pub mod Continue
pub mod Archive
pub mod Runtime
pub mod Manager
pub mod Retry
pub mod Recovery
mod Tests
