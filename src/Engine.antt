-- ===== src/Engine.antt =====
-- internal/engine: the command ledger and the account of repeated denials.
pub mod Ledger
pub mod Audit
pub mod Commands
