-- ===== src/Node.antt =====
-- What a node knows and how it is protected: internal/clock, internal/httplimit.
pub mod Clock
pub mod Limiter
