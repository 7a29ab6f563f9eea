-- ===== src/Core.antt =====
-- include/flexman/core: modes, executions, solutions, fronts, results and the search manager.
pub mod Execution
pub mod Solution
pub mod Manager
