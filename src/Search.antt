-- ===== src/Search.antt =====
-- include/flexman/search: from one simulated mode up to the whole search.
pub mod Interpolation
pub mod Extension
pub mod Algorithms
pub mod Dominance
pub mod Splitting
pub mod Iteration
pub mod Perform
pub mod Logs
