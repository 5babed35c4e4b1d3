-- ===== src/Restart.antt =====
-- internal/restart: when a change of the clusters restarts the operator.
pub mod Watcher
