-- ===== src/Tests.antt =====
-- Runs of the model on concrete inputs: test data, and one instance of each theorem.
mod Data
mod Paths
mod Reconcile
mod Completeness
mod Queue
mod Inventory
mod Coordinator
mod Journal
mod Budget
mod Coverage
