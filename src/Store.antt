-- ===== src/Store.antt =====
-- The store of records: internal/store.
pub mod Keys
pub mod Data
pub mod Cursors
pub mod Encode
pub mod Streams
pub mod Pages
pub mod Replicated
pub mod Journal
pub mod Policy
pub mod Prune
