-- ===== src/Frameworks.antt =====
-- The allocation frameworks, frameworks/: their observations, estimators and predictions.
pub mod Counts
pub mod Sound
pub mod Fractions
pub mod Subsets
pub mod Base
pub mod Estimators
pub mod Loader
mod Tests
