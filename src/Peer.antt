-- ===== src/Peer.antt =====
-- internal/peer: peers built from nodes, their names, and their reconciliation with a cluster.
pub mod Naming
pub mod Builder
pub mod Reconciler
