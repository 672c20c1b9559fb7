-- ===== src/Reconcile.antt =====
-- backend/controller/lmevaljob_controller.go: the reconciler.
pub mod Base
pub mod Handlers
pub mod Diagram
pub mod Moves
pub mod Dispatch
pub mod Complete
pub mod Begin
pub mod Pods
pub mod Watch
pub mod Cancel
pub mod Frame
pub mod Release
pub mod Calls
pub mod Trace
pub mod Settle
pub mod CancelSettle
