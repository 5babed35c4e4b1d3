-- ===== src/Multicluster.antt =====
-- internal/multicluster: the clients of all clusters, built from the entries of all meshes.
pub mod Registry
