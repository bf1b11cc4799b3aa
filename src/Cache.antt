-- ===== src/Cache.antt =====
-- The first level of the cache of internal/infra/cache.
pub mod L1
pub mod Agreement
pub mod Recency
pub mod Sizes
pub mod Refinement
pub mod Runs
