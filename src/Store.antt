-- ===== src/Store.antt =====
-- internal/store: the persistent cache. bbolt and encoding/json are parameters.
pub mod Types
pub mod Encoding
pub mod Bucket
pub mod Ops
