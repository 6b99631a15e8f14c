-- ===== src/Kernel.antt =====
-- internal/kernel: the pure decisions, from a snapshot's evidence to canonical transitions.
pub mod Completeness
pub mod Journal
pub mod Reconcile
pub mod Identity
pub mod Pipeline
