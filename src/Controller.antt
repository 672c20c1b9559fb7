-- ===== src/Controller.antt =====
-- The controller's command, and its setup with the manager.
pub mod Manage
pub mod Flags
pub mod Main
pub mod Duties
pub mod Http
pub mod Wake
