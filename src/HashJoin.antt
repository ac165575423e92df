-- ===== src/HashJoin.antt =====
-- application/hashjoin_benchmark: the hash table of the join, the tasks that fill and probe it, the
-- partitioning of the tables, and the counters that start the next phase.
pub mod Table
pub mod Join
pub mod Partition
pub mod Phase
pub mod Chunks
mod Tests
