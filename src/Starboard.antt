-- ===== src/Starboard.antt =====
-- The starboard, src/features/starboard.
pub mod Handler
pub mod Once
mod Examples
