-- ===== src/Setup.antt =====
-- The setup command: crates/daemon/src/setup.rs, less what it prints. What programs, files and the
-- network answer comes as arguments.
pub mod Download
pub mod Plan
pub mod Indicators
