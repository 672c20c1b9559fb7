-- ===== src/Cluster.antt =====
-- The Kubernetes API behind controller-runtime's client, as the code uses it.
pub mod Interface
pub mod Memory
pub mod Laws
