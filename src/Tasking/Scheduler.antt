-- ===== src/Tasking/Scheduler.antt =====
-- mx/tasking/scheduler.h and scheduler.cpp: to which channel's queue a spawned task goes. The
-- assertions behind `NOT IMPLEMENTED` are `none`. The workers' channels are a function of the
-- channel id; the statistics are compiled out (config::task_statistics()).
use mxtasking.Prelude.{
  ℕ, ◌≡◌, ◌≢◌, refl, Bool, true, false, not, ◌==◌, ◌&&◌, ◌||◌, if◌then◌else◌, Option, none, some,
  arith,
}
use mxtasking.Sync.Primitive.{
  Primitive, no_primitive, exclusive_latch, schedule_all, reader_writer_latch, schedule_writer,
  olfit,
}
use mxtasking.Resource.Ptr.{channel_of, primitive_of}
use mxtasking.Tasking.Task.{TaskInterface, Target, on_channel, on_node, on_resource, anywhere}
use mxtasking.Tasking.Channel.{Channel, push_back_local, push_back_remote}

pub record Scheduler : Type 0 where
  pub channels : ℕ → Channel
  pub count_channels : ℕ
  pub channel_numa_node_map : ℕ → ℕ

abbrev pub is_primitive : Primitive → Primitive → Bool
is_primitive no_primitive no_primitive = true
is_primitive exclusive_latch exclusive_latch = true
is_primitive schedule_all schedule_all = true
is_primitive reader_writer_latch reader_writer_latch = true
is_primitive schedule_writer schedule_writer = true
is_primitive olfit olfit = true
is_primitive _ _ = false

unfoldable pub keep_task_local : Bool → Primitive → ℕ → ℕ → Bool
keep_task_local is_readonly primitive resource_channel_id current_channel_id =
    (resource_channel_id == current_channel_id)
    || (is_readonly && not (is_primitive primitive schedule_all))
    || (not (is_primitive primitive no_primitive)
        && not (is_primitive primitive schedule_all)
        && not (is_primitive primitive schedule_writer))

abbrev pub update : (ℕ → Channel) → ℕ → Channel → ℕ → Channel
update f i c j = if i == j then c else f j

-- The channel whose worker executes the task, if it is spawned from the channel `current`.
unfoldable pub destination : TaskInterface → ℕ → ℕ
destination t current = elim (t.target) [
  | on_resource r size ↦
      if keep_task_local t.is_readonly (primitive_of r) (channel_of r) current
      then current
      else channel_of r
  | on_channel target ↦ target
  | on_node n ↦ current
  | anywhere ↦ current
]

keep_task_local-other :
    (ro : Bool) (p : Primitive) (r c : ℕ) → keep_task_local ro p r c ≡ false → r ≢ c
unfolding keep_task_local
keep_task_local-other ro p r c h = ground arith

module _ (tasks : ℕ → TaskInterface) where
  push_local : Scheduler → ℕ → ℕ → Scheduler
  push_local s channel_id task = record s {
    channels = update s.channels channel_id (push_back_local tasks (s.channels channel_id) task);
  }

  push_remote : Scheduler → ℕ → ℕ → ℕ → Scheduler
  push_remote s channel_id numa_node_id task = record s {
    channels =
        update s.channels channel_id
          (push_back_remote tasks (s.channels channel_id) task numa_node_id);
  }

  -- `schedule(task, current_channel_id)`
  pub schedule : Scheduler → ℕ → ℕ → Option Scheduler
  unfolding push_local push_remote
  schedule s task current = elim ((tasks task).target) [
    | on_resource r size ↦
        if keep_task_local (tasks task).is_readonly (primitive_of r) (channel_of r) current
        then some (push_local s current task)
        else some (push_remote s (channel_of r) (s.channel_numa_node_map current) task)
    | on_channel target ↦
        if target == current
        then some (push_local s current task)
        else some (push_remote s target (s.channel_numa_node_map current) task)
    | on_node n ↦ none
    | anywhere ↦ some (push_local s current task)
  ]

  -- `schedule(task)`, for callers that are no worker.
  pub schedule_outside : Scheduler → ℕ → Option Scheduler
  unfolding push_remote
  schedule_outside s task = elim ((tasks task).target) [
    | on_resource r size ↦ some (push_remote s (channel_of r) 0 task)
    | on_channel target ↦ some (push_remote s target 0 task)
    | on_node n ↦ none
    | anywhere ↦ none
  ]

  -- Scheduling a task that is not bound to a NUMA node succeeds; it pushes the task to a queue of
  -- its destination, the local queue if that is the current channel and the queue of the current
  -- channel's region otherwise, and leaves every other channel as it is.
  pub schedule-destination :
      (s : Scheduler) (task current : ℕ)
      → ((n : ℕ) → (tasks task).target ≢ on_node n)
      → schedule s task current
        ≡ some (record s {
          channels = update s.channels (destination (tasks task) current) (
              if destination (tasks task) current == current
              then push_back_local tasks (s.channels current) task
              else push_back_remote tasks
                  (s.channels (destination (tasks task) current))
                  task
                  (s.channel_numa_node_map current));
        })
  unfolding schedule destination
  schedule-destination s task current h = by_target ((tasks task).target) refl
    where
      to : ℕ → Scheduler
      to d = record s {
        channels = update s.channels d (
            if d == current
            then push_back_local tasks (s.channels current) task
            else push_back_remote tasks (s.channels d) task (s.channel_numa_node_map current));
      }

      by_target :
          (t : Target)
          → (tasks task).target ≡ t
          → schedule s task current ≡ some (to (destination (tasks task) current))
      by_target (on_resource r size) e =
          rw (e, schedule, destination)
            (ground (
              arith,
              keep_task_local-other (tasks task).is_readonly (primitive_of r) (channel_of r)
                  current,
            ))
      by_target (on_channel target) e = rw (e, schedule, destination) (ground arith)
      by_target (on_node n) e = absurd (h n e)
      by_target anywhere e = rw (e, schedule, destination) (ground arith)
