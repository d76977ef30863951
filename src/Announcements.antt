-- ===== src/Announcements.antt =====
-- src/features/scheduled-announcements/: messages at set times.
pub mod Schedule
pub mod Service
mod Examples
