-- ===== src/Engine.antt =====
-- The parts of the v2 engine that drive the catalog (internal/enginev2).
pub mod Reconcile
pub mod Worker
pub mod Builder
pub mod Watch
pub mod Pacing
pub mod Dispatch
pub mod Service
