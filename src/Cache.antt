-- ===== src/Cache.antt =====
-- core/utils/cache: the process-wide cache with its strategies, limits and clean-up.
pub mod Types
pub mod Manager
pub mod Bounds
pub mod Runs
pub mod View
pub mod Refines
pub mod Names
mod Examples
