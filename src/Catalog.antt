-- ===== src/Catalog.antt =====
-- internal/enginev2/catalog/sqlite: the durable catalog.
pub mod Tables
pub mod Tx
pub mod Jobs
pub mod Settle
pub mod Generations
pub mod Artifacts
pub mod Symbols
pub mod Commit
pub mod Reads
