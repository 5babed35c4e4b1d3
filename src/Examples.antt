-- ===== src/Examples.antt =====
-- Runs of the model on concrete inputs.
pub mod Fixtures
pub mod Store
pub mod Fleet
mod Sync
mod Sweeps
mod Theorems
mod Clusters
mod Requests
mod Registry
mod Sorting
mod Cleanup
mod Install
mod Pushes
