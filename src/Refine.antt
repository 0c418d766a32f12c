-- ===== src/Refine.antt =====
-- The self-refinement loop: harness/self_refine. `State` is models.py, `Budget` and `Phases` are
-- self_refine.py; the other children prove.
pub mod State
pub mod Budget
pub mod Phases
pub mod Labels
pub mod Valid
pub mod Capture
pub mod Durable
pub mod Passes
pub mod Progress
pub mod Saved
pub mod Run
mod Tests
