-- ===== src/Queue.antt =====
-- The durable queue: queue.go and store.go over the tables of migrations/.
pub mod Types
pub mod Schema
pub mod Evaluation
pub mod Frozen
pub mod Intake
pub mod Extraction
pub mod Freeze
pub mod Delivery
mod Ledger
pub mod Invariant
pub mod Retention
pub mod Step
pub mod Tests
