-- ===== src/Store.antt =====
-- src/operations/operations-state.ts: the durable state of the operations.
pub mod Database
pub mod Sql
pub mod Items
pub mod Notes
pub mod Approvals
pub mod Outcomes
pub mod Import
pub mod Steps
pub mod Replay
pub mod Backing
pub mod Keys
pub mod Trail
