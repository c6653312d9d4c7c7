-- ===== src/Store.antt =====
-- The object store (store/): sizes, the state of the cache on disk and in memory, its operations and
-- what they keep.
pub mod Size
pub mod Model
pub mod Evict
pub mod Cache
pub mod Objects
