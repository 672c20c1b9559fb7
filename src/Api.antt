-- ===== src/Api.antt =====
-- The types of the API group: those of Kubernetes that the code reads or fills, and LMEvalJob.
pub mod Core
pub mod Job
pub mod Backend
