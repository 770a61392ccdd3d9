-- ===== src/Gateway.antt =====
-- src/operations/operations-gateway.ts
pub mod World
pub mod Rules
pub mod Quiet
pub mod Publish
pub mod Execution
pub mod Commands
pub mod Decisions
pub mod Reviews
pub mod Service
