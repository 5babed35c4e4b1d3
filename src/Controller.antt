-- ===== src/Controller.antt =====
-- internal/controller/clustermesh_controller.go: the nodes of a source cluster that become peers,
-- and the peers that the other clusters should have.
pub mod Nodes
pub mod Desired
pub mod Orphans
pub mod Enrich
pub mod Requests
pub mod Objects
pub mod Push
pub mod Sources
pub mod Cleanup
pub mod Reconcile
pub mod Frame
pub mod Settled
pub mod Swept
pub mod Deletion
pub mod Statuses
pub mod Requeue
