-- ===== src/Settings.antt =====
-- The settings of the controller and its start.
pub mod Construct
pub mod Start
pub mod Laws
pub mod Served
pub mod Agree
pub mod Port
pub mod Secrets
