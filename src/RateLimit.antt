-- ===== src/RateLimit.antt =====
-- The two rate limiters: of forwarded error stacks and of GitHub webhook deliveries.
pub mod StackLimiter
pub mod WebhookLimiter
mod Examples
