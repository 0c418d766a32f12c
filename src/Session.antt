-- ===== src/Session.antt =====
-- One conversation of an attempt: harness/session.
pub mod Event
pub mod State
pub mod Usage
pub mod Errors
pub mod Message
pub mod Agent
pub mod Connection
pub mod Tools
pub mod Options
mod Tests
