-- ===== src/Cache.antt =====
-- src/cache: the parts of the cache.
pub mod Mshr
pub mod Sets
pub mod Prefetch
pub mod Level
