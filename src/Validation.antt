-- ===== src/Validation.antt =====
-- internal/validation: the networks of meshes and the eligibility of nodes.
pub mod Node
pub mod Mesh
