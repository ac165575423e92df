-- ===== src/Tasking/Runtime/Restart.antt =====
-- What a second initialization of mx/tasking/runtime.h keeps.
use mxtasking.Prelude.{ℕ, ◌≡◌, true, some}
use mxtasking.Util.CoreSet
use mxtasking.Util.CoreSet.{CoreSet}
use mxtasking.Memory.Allocator.{Allocator}
use mxtasking.Tasking.Runtime.{SchedulerState, init_scheduler, reset_scheduler}

-- With the cores of an earlier run that has ended, the scheduler keeps the old prefetch distance,
-- whatever the new one is.
pub init_scheduler-same_cores :
    (max_node_id stub : ℕ) (core_set : CoreSet) (s : SchedulerState) (allocator : Allocator)
    (prefetch_distance : ℕ)
    → CoreSet.is_same s.core_set core_set ≡ true
    → (init_scheduler max_node_id stub core_set prefetch_distance allocator
        (some s)).prefetch_distance
      ≡ s.prefetch_distance
unfolding init_scheduler reset_scheduler
init_scheduler-same_cores max_node_id stub core_set s allocator prefetch_distance e = rw e
