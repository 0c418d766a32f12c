-- ===== src/Audit.antt =====
-- The audit of saved solutions: audit/.
pub mod Models
pub mod Reuse
pub mod Runner
pub mod Judge
