-- ===== src/Installer.antt =====
-- internal/installer: the progress of a deployment, its errors, and its retry.
mod Tests
pub mod Errors
pub mod Progress
pub mod Tracker
pub mod Retry
pub mod Runner
