-- ===== src/Birthday.antt =====
-- src/features/birthday-role/: registered birthdays and the role of the day.
pub mod Storage
pub mod Date
pub mod Handler
pub mod Roles
mod Examples
