-- ===== src/Session/Usage.antt =====
-- harness/session/token_usage.py: the output ledger of one run. Message identities and counts come
-- from the SDK; a count may be negative until it is validated.
pub mod Ledger
pub mod Totals
