-- ===== src/Events.antt =====
-- The bounded buffers of recent log events: the logger's, and that of the runtime status store.
pub mod RingBuffer
pub mod Recent
pub mod StatusStore
pub mod Consistent
mod Examples
