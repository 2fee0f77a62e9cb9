-- ===== src/Sync.antt =====
-- The runtime-local synchronisation primitives of src/sync.
pub mod Waiters
pub mod Semaphore
pub mod Cancellation
pub mod Mutex
pub mod RwLock
pub mod Notify
pub mod OnceCell
