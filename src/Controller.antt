-- ===== src/Controller.antt =====
-- The pod controller (`controllers/pod_controller.go`) and the pass over the pods that have been
-- deleted (`controllers/process_deleted_pods.go`).
pub mod Pods
pub mod Repeats
pub mod Rollout
pub mod Deleted
pub mod Owner
pub mod Outcome
pub mod Event
pub mod Report
pub mod Settle
pub mod Reconcile
pub mod Tests
