-- ===== src/Tasking/Runtime.antt =====
-- mx/tasking/runtime.h: the initialization of the runtime, which keeps what it can of an earlier run.
-- The calls that forward to the scheduler, the builder and the allocators are theirs. The memory that
-- the n-th call of the global heap returns is at `global n`, and the stub of the epoch manager's
-- garbage queue is at `stub`.
pub mod Restart
use mxtasking.Prelude.{
  ℕ, ◌+◌, ◌-◌, ◌^◌, Bool, true, false, not, ◌&&◌, ◌||◌, if◌then◌else◌, Option, none, some,
}
use mxtasking.Util.CoreSet
use mxtasking.Util.CoreSet.{CoreSet}
use mxtasking.Util.MpscQueue
use mxtasking.Memory.Allocator
use mxtasking.Memory.Allocator.{
  Allocator, create_allocator, release_allocated_memory, initialize_empty, defragment,
}
use mxtasking.Memory.Reclamation.{EpochManager, reset}
use mxtasking.Resource.Builder.{Builder}
use mxtasking.Tasking.Occupancy.{no_predictions}

-- The scheduler, as far as its initialization goes.
pub record SchedulerState : Type 0 where
  pub core_set : CoreSet
  pub prefetch_distance : ℕ
  pub is_running : Bool
  pub epoch_manager : EpochManager

-- SystemTaskAllocator, or the allocator of fixed sizes for a core set.
pub data TaskAllocator : Type 0 where
  system_allocator : TaskAllocator
  fixed_allocator : CoreSet → TaskAllocator

pub record Runtime : Type 0 where
  pub scheduler : Option SchedulerState
  pub task_allocator : Option TaskAllocator
  pub resource_allocator : Option Allocator
  pub resource_builder : Option Builder

-- The epoch manager of a new scheduler.
abbrev pub create_epoch_manager : ℕ → ℕ → EpochManager
create_epoch_manager stub count_channels = record {
  count_channels = count_channels;
  global_epoch = 0;
  local_epochs = λ _. 2 ^ 32 - 1;
  global_garbage_queue = MpscQueue.create stub (λ _. 0);
  remove_epoch = λ _. 0;
}

abbrev pub create_scheduler : ℕ → CoreSet → ℕ → SchedulerState
create_scheduler stub core_set prefetch_distance = record {
  core_set = core_set;
  prefetch_distance = prefetch_distance;
  is_running = false;
  epoch_manager = create_epoch_manager stub (CoreSet.size core_set);
}

-- `Scheduler::reset()`; the statistics are compiled out.
unfoldable pub reset_scheduler : ℕ → Allocator → SchedulerState → SchedulerState
reset_scheduler max_node_id allocator s = record s {
  epoch_manager = reset (Allocator.is_free max_node_id allocator) s.epoch_manager;
}

-- `Builder(scheduler, allocator)`
abbrev pub create_builder : (ℕ → ℕ) → CoreSet → Builder
create_builder node_id core_set = record {
  count_channels = CoreSet.size core_set;
  channel_numa_node_map = CoreSet.numa_node_id node_id core_set;
  occupancy = λ _. no_predictions;
  round_robin_channel_id = 0;
}

-- The resource allocator behind the first step.
unfoldable pub init_allocator : (ℕ → ℕ) → ℕ → Option Allocator → Allocator
init_allocator global max_node_id none = create_allocator global max_node_id
init_allocator global max_node_id (some a) =
    if Allocator.is_free max_node_id a
    then initialize_empty global max_node_id (release_allocated_memory max_node_id a)
    else defragment global max_node_id a

abbrev pub is_running : Option SchedulerState → Bool
is_running none = false
is_running (some s) = s.is_running

abbrev pub needs_new_scheduler : CoreSet → Option SchedulerState → Bool
needs_new_scheduler core_set none = true
needs_new_scheduler core_set (some s) = not (CoreSet.is_same s.core_set core_set)

abbrev pub is_missing {ℓ} : {A : Type ℓ} → Option A → Bool
is_missing none = true
is_missing (some a) = false

unfoldable pub init_scheduler :
    ℕ → ℕ → CoreSet → ℕ → Allocator → Option SchedulerState → SchedulerState
unfolding reset_scheduler
init_scheduler max_node_id stub core_set prefetch_distance allocator none =
    create_scheduler stub core_set prefetch_distance
init_scheduler max_node_id stub core_set prefetch_distance allocator (some s) =
    if needs_new_scheduler core_set (some s)
    then create_scheduler stub core_set prefetch_distance
    else reset_scheduler max_node_id allocator s

module _ (global : ℕ → ℕ) (node_id : ℕ → ℕ) (max_node_id stub : ℕ) where
  -- `init(core_set, prefetch_distance, use_system_allocator)`
  unfoldable pub init : CoreSet → ℕ → Bool → Runtime → Bool × Runtime
  unfolding init_allocator init_scheduler
  init core_set prefetch_distance use_system_allocator r =
      let allocator = init_allocator global max_node_id r.resource_allocator in
      let new = needs_new_scheduler core_set r.scheduler in
      if is_running r.scheduler then (false, r) else (
        true,
        record {
          resource_allocator = some allocator;
          task_allocator =
              some (if use_system_allocator then system_allocator else fixed_allocator core_set);
          scheduler =
              some
                (init_scheduler max_node_id stub core_set prefetch_distance allocator r.scheduler);
          resource_builder =
              if is_missing r.resource_builder || new
              then some (create_builder node_id core_set)
              else r.resource_builder;
        },
      )
