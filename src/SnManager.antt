-- ===== src/SnManager.antt =====
-- The manager that updates the supernode's binary, sn-manager/internal.
pub mod Version
pub mod Gateway
pub mod Updater
mod Examples
