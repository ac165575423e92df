-- ===== src/Benchmark.antt =====
-- benchmark and application/blinktree_benchmark: how the requests of a workload are handed out.
pub mod Requests
pub mod Workloads
pub mod Cores
pub mod Scheduler
pub mod Phases
mod Tests
