-- ===== src/Snapshots.antt =====
-- src/features/state-snapshot/: the files of the encrypted snapshots.
pub mod Purge
pub mod Retention
mod Examples
mod RetentionExamples
