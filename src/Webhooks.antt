-- ===== src/Webhooks.antt =====
-- internal/webhooks: signed events, their delivery with retries, and the dead-letter queue.
pub mod Event
pub mod Dispatcher
pub mod Emit
pub mod Replay
