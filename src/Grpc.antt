-- ===== src/Grpc.antt =====
-- backend/controller/grpc_server.go, and updateStatus of lmevaljob_controller.go.
pub mod Status
pub mod Laws
pub mod Cases
pub mod Accept
