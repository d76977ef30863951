-- ===== src/Privacy.antt =====
-- src/features/privacy/: what `/privacy delete` removes.
pub mod Consumers
pub mod Clear
mod Examples
