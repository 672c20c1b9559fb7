-- ===== src/Tests.antt =====
-- Runs of the model on concrete data, and the theorems at concrete inputs.
mod Data
mod Logged
mod Reconcile
mod Begin
mod Pod
mod Grpc
mod Driver
mod Webhook
mod Settings
mod Port
mod Lifecycle
mod Quiet
mod CommandLine
mod Begun
mod Controller
mod Copy
