-- ===== src/Settings.antt =====
-- The settings screen: crates/daemon/src/settings, less the terminal and the tools it runs.
pub mod Form
pub mod Fits
pub mod Press
pub mod Clean
pub mod Sources
pub mod Editable
