-- ===== src/Pod.antt =====
-- backend/controller/lmevaljob_controller.go: the pod that runs a job.
pub mod Options
pub mod Command
pub mod Volumes
pub mod Build
pub mod SecretVolumes
pub mod Names
pub mod Tls
pub mod Script
pub mod Mounted
