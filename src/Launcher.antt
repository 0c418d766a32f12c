-- ===== src/Launcher.antt =====
-- What a launch accepts: launcher/models.py and experiments/.
pub mod Directory
pub mod Config
pub mod Batch
pub mod Dataset
pub mod Attempts
pub mod Provider
mod Tests
