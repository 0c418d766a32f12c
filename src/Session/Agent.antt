-- ===== src/Session/Agent.antt =====
-- harness/session/agent_session.py: the interpreter of SDK messages.
pub mod State
pub mod Responses
pub mod Results
pub mod Run
pub mod Protocol
pub mod Runs
