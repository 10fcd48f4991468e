-- ===== src/Storage.antt =====
-- internal/storage: object keys, the store interface and the in-memory store.
pub mod Key
pub mod Types
pub mod Memory
pub mod S3
pub mod Plan
mod Tests
