-- ===== src/Notices.antt =====
-- When the CEO is interrupted: the daily schedule and the rhythm of exception notices.
pub mod Kinds
pub mod Schedule
pub mod Rhythm
pub mod Sweep
