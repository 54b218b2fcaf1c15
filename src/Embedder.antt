-- ===== src/Embedder.antt =====
-- embedder: the batches sent to the embedding endpoint, and how its rate limits are met.
pub mod Batch
pub mod Results
pub mod Limiter
pub mod Bucket
