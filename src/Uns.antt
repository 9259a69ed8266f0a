-- ===== src/Uns.antt =====
-- plugins/uns: topics, classes and streams, grants and the authorization decisions.
pub mod Topic
pub mod Mount
pub mod Classes
pub mod Records
pub mod Grant
pub mod Entry
pub mod Authz
