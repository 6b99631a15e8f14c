-- ===== src/Incremental.antt =====
-- internal/incremental: the durable work queue of scopes to verify again.
pub mod Model
pub mod Sets
pub mod Scope
