-- ===== src/Lifecycle.antt =====
-- A job's life between the controller, the driver, the cluster and the user.
pub mod Change
pub mod System
pub mod Reconciled
pub mod Refine
pub mod Laws
pub mod Remaining
pub mod Quiet
pub mod Pods
pub mod Whole
pub mod Begun
