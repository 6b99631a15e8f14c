-- ===== src/Store.antt =====
-- internal/store/postgres: the durable state, one transaction at a time.
pub mod Work
pub mod Queue
pub mod Plan
pub mod Inventory
pub mod Tables
pub mod Terminal
pub mod Admission
pub mod Prior
pub mod Shrink
pub mod Commit
pub mod Coordinator
pub mod Fifo
pub mod Worker
pub mod Head
pub mod RootAdmin
pub mod Coverage
