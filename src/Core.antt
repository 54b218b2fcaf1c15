-- ===== src/Core.antt =====
-- internal/enginev2/core: the domain layer of the v2 engine.
pub mod StateMachine
pub mod Encoding
pub mod Fingerprint
pub mod Identity
pub mod Job
