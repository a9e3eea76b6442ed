-- ===== src/Chunk.antt =====
-- chunk/: the chunk type, and the store that indexes chunks in DynamoDB and keeps them in S3.
pub mod Types
pub mod Sets
pub mod Store
pub mod Batch
pub mod Limiter
pub mod Buckets
pub mod Matchers
pub mod Setup
pub mod Memcache
