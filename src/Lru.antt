-- ===== src/Lru.antt =====
-- base/lru_cache.h: a cache that evicts the least recently used entry.
pub mod Store
pub mod Cache
pub mod Consistent
pub mod Steps
pub mod Trimming
pub mod Run
mod Tests
