-- ===== src/Sync.antt =====
-- mx/synchronization: the words by which a resource's synchronization is described, and the latches.
pub mod Primitive
pub mod OptimisticLock
pub mod Spinlock
mod Tests
