-- ===== src/Runtime.antt =====
-- The runtime of src/platform/runtime_shared.
pub mod Timer
pub mod Tasks
pub mod Scheduler
