-- ===== src/Scheduler.antt =====
-- internal/enginev2/scheduler: the host-wide admission control over the durable queue.
pub mod Circuit
pub mod Config
pub mod Backoff
