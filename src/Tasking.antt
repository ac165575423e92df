-- ===== src/Tasking.antt =====
-- mx/tasking: tasks, the buffers and queues they wait in, and the scheduler.
pub mod Task
mod Annotations
pub mod TaskBuffer
pub mod Occupancy
pub mod Channel
pub mod Worker
pub mod Scheduler
pub mod Isolation
pub mod Execute
pub mod Runtime
pub mod Load
mod Tests
