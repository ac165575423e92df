-- ===== src/Index.antt =====
-- db/index/blinktree: the B-link tree over the runtime.
pub mod Node
pub mod Tree
pub mod Check
mod Tests
