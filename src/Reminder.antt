-- ===== src/Reminder.antt =====
-- The personal reminders, src/features/reminder.
pub mod Store
pub mod Duration
pub mod Scheduler
pub mod Overdue
pub mod Queue
pub mod Command
pub mod Dispatch
pub mod Limits
pub mod Durable
mod Examples
