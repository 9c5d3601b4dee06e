-- ===== src/Expiring.antt =====
-- base/cache.h: a cache of items that expire.
pub mod Cache
pub mod Bound
mod Tests
