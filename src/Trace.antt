-- ===== src/Trace.antt =====
-- trace: the index of symbols, of the references to them, and of the calls between them.
pub mod Store
pub mod View
