-- ===== src/Kernel/Reconcile.antt =====
-- internal/kernel/reconcile: which resource an observed entry is, and what the canonical
-- inventory makes of it.
pub mod Types
pub mod Paths
pub mod Index
pub mod Resolve
pub mod Missing
pub mod Run
pub mod Directory
pub mod Context
