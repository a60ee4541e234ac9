-- ===== src/Group.antt =====
-- Dtool_impl/src/downloader/download_group.rs: the group of download tasks that share one state
-- behind one lock.
pub mod Slots
pub mod Shared
pub mod Handles
pub mod GroupGuard
pub mod ReporterGuard
pub mod BusyGroup
pub mod IdleGroup
pub mod ReporterBusy
pub mod ReporterIdle
pub mod Tasks
