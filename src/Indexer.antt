-- ===== src/Indexer.antt =====
-- The indexer's cutting of files (indexer).
pub mod Lines
pub mod Chunker
pub mod ReChunk
