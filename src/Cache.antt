-- ===== src/Cache.antt =====
-- src/cache.rs and src/cache/: a space used as a cache, a counter and a lock, and keys that hold
-- lists, hashes, sets and rankings.
pub mod Statements
pub mod Space
pub mod Containers
pub mod Rankings
