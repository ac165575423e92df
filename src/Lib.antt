-- ===== src/Lib.antt =====
-- mxtasking: a task-based runtime for many cores, and the B-link tree index that is built on it.
--
-- The program. An application makes tasks and annotates each with the resource, or the channel, that
-- it works on. The scheduler (mx/tasking/scheduler.cpp) puts a spawned task into a queue of a
-- channel: the local queue of the spawning worker, or the remote queue of another worker for the
-- spawner's NUMA region. A worker (mx/tasking/worker.cpp) fills the buffer of its channel from these
-- queues, takes one task after the other, and executes it under the latch that the primitive of the
-- task's resource asks for. The resource builder (mx/resource/builder.cpp) chooses the channel and
-- the primitive of a resource from hints; the dynamic allocator
-- (mx/memory/dynamic_size_allocator.cpp) gives it memory. The B-link tree (db/index/blinktree) is a
-- client: its nodes are resources, and lookups, updates and insertions are tasks that walk from node
-- to node. The hash join is another: partition tasks spread the rows of two tables over the cores,
-- whose build and probe tasks fill and read one hash table each. All paths here are below src/ of the
-- repository.
--
-- The files.
--   Prelude       what the modules share: names of the libraries, Boolean tests on numbers, words of
--                 64, 32 and 16 bits with their wrap-around, lists, `bit_and` with masks.
--   Util          mx/util. Queue is queue.h and MpscQueue is mpsc_queue.h: intrusive lists over a
--                 store of `next` fields. Util/Queue/Fifo and Util/MpscQueue/Fifo relate them to lists.
--                 BoundQueue is bound_mpmc_queue.h, a ring of slots with sequence numbers. Vector, Random
--                 and CoreSet are the files of these names.
--   Sync          mx/synchronization. Primitive is synchronization.h and primitive_matrix.h;
--                 OptimisticLock is optimistic_lock.h and Spinlock is spinlock.h, with the steps of any
--                 number of threads.
--   Resource      mx/resource. Ptr is the tagged pointer with the channel and the primitive, Tagged
--                 the replacement of its parts and its comparisons; Builder is builder.h and builder.cpp,
--                 and Lifetime is building in new memory and destruction.
--   Memory        mx/memory. Dynamic is a block of dynamic_size_allocator: `allocate`, `free` and
--                 their parts have the names of the source; Allocator is the allocator over the blocks.
--                 Fixed is the chunks, the processor heap and the core heap of fixed_size_allocator.h,
--                 TaskAllocator its allocator over the cores. Reclamation is the epoch manager, Alignment
--                 is alignment_helper.h.
--   Tasking       mx/tasking. Task, TaskBuffer, Occupancy, Channel, Scheduler and Worker are the files
--                 of these names; Annotations is the annotation of a task in task.h; Isolation
--                 is the choice of the latch in worker.cpp, and Isolation/Built joins it with the builder and the scheduler. Execute is the execution of
--                 one task, with task_stack.h; Runtime is the initialization in runtime.h; Load is load.h.
--   Index         db/index/blinktree. Node is node.h, Tree is b_link_tree.h, and Tree/Tasks is
--                 lookup_task.h, update_task.h, insert_value_task.h and insert_separator_task.h. Check is
--                 node_consistency_checker.h, node_iterator.h and node_statistics.h.
--   HashJoin      application/hashjoin_benchmark. Table is inline_hashtable.h; Join is build_task.h,
--                 probe_task.h and merge_task.cpp; Partition is partition_task.h; Phase is listener.h,
--                 notification_task.h and notifier.cpp; Chunks is the division of the columns in
--                 benchmark.cpp.
--   Benchmark     Requests is the request container of application/blinktree_benchmark, with
--                 mx/util/reference_counter.h and the workload of benchmark/workload.cpp; Scheduler is the
--                 task that makes tree tasks of them, Phases the phases in benchmark.cpp. Workloads is
--                 benchmark/workload_set.cpp and Cores is benchmark/cores.cpp.
--   The modules named Tests apply theorems to concrete states.
--
-- How the parts correspond. A pointer is a number, null is 0, and the fields behind it stand in a
-- table or a store. An array is a function of the index. A call that changes an object returns the
-- object after it. Sizes and indexes wrap around where the width of their type can matter. The task
-- buffer fills from any queue that satisfies the laws of a record, SourceLaws, which both queues do.
-- A method under a latch is one step. The steps of the version lock are its atomic operations.
--
-- Fuel. The inner loop of a worker runs on fuel, one more than the number of tasks that the channel
-- holds; nothing is scheduled meanwhile. The binary search of a node takes one round more than the
-- node has keys. The loops that reclaim garbage need one round more than there is garbage. A search
-- in the hash table needs as many rounds as the table has slots, one of which is free. A call of a
-- processor heap calls itself once at most, and a call of the bounded queue needs a round in which
-- its weak exchange does not fail; the rounds that fail are an argument. The loop of a partition
-- task takes a round for each row, and one to end. The search of a node, the search in the hash
-- table, the loops that reclaim garbage, the calls of the bounded queue and the loop of a partition
-- task give `none` when their fuel is used up, which they do not give when they end. The dynamic
-- allocator needs one new block when the request fits into one. A walk over a tree takes a round
-- for each node, and one to end; an optimistic read takes as many attempts as fail, and one more.
-- The other loops recur on the list or the number of rounds that they go through.
--
-- Parameters. What new memory holds, the addresses of new nodes, the capacities of leaves and inner
-- nodes (which follow from the sizes of headers), the tasks' fields, the values that a worker
-- reads of the global epoch, the addresses that the global heap returns, std::rand, std::hash, the NUMA
-- node of a core, and what a task does when it is executed. The native interface (pinning, prefetch
-- instructions) has no part in the state.
--
-- Not modelled. Interleavings of threads inside one call of the two concurrent queues and of the
-- fixed size allocator; memory orders weaker than the sequentially consistent one; the reader/writer
-- lock, which is a copy of another library; interleavings of threads inside the dynamic allocator; the
-- order of a tree's nodes as a whole; the calls of the runtime that forward; the parsing of text and of
-- files; the main programs, measurement and profiling, which are drivers and output.
pub mod Prelude
pub mod Util
pub mod Sync
pub mod Resource
pub mod Memory
pub mod Tasking
pub mod HashJoin
pub mod Benchmark
pub mod Index
