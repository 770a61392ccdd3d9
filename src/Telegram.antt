-- ===== src/Telegram.antt =====
-- The Telegram channel: the tables that make its deliveries durable, and the front door that sends.
pub mod Kinds
pub mod Tables
pub mod Outbox
pub mod Notices
pub mod Calls
pub mod Ingress
pub mod Channel
pub mod FrontDoor
