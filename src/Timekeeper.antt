-- ===== src/Timekeeper.antt =====
-- src/features/timekeeper/: the daily session of work phases and breaks.
pub mod Schedule
pub mod Timeline
pub mod Connect
pub mod Session
pub mod Engagement
mod Examples
mod SessionExamples
