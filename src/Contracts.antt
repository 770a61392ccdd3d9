-- ===== src/Contracts.antt =====
-- src/operations/contracts.ts: the vocabularies, the JSON values and the records.
pub mod Kinds
pub mod Names
pub mod Json
pub mod Records
