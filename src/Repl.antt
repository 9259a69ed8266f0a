-- ===== src/Repl.antt =====
-- Replication to the parent: internal/repl.
pub mod LinkState
