-- ===== src/History.antt =====
-- The package history: the causal graph of a document's operations.
pub mod Dag
mod Tests
