-- ===== src/Poll.antt =====
-- The poll feature, src/features/poll.
pub mod State
pub mod Aggregate
pub mod Tally
pub mod Votes
pub mod Handler
mod Examples
