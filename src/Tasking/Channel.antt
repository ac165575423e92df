-- ===== src/Tasking/Channel.antt =====
-- mx/tasking/channel.h: a worker's queues, one for its own tasks and one for the tasks of each NUMA
-- region, both for either priority, and the buffer that is filled from them. `tasks` is the table
-- of the tasks' fields.
pub mod Contents
pub mod Rounds
pub mod Refill
use Prim.Native.Nat.{bit_and}
use mxtasking.Prelude.{
  ℕ, zero, suc, ◌+◌, ◌-◌, Bool, true, false, ◌==◌, ltb, ◌&&◌, if◌then◌else◌, sub16,
}
use mxtasking.Sync.Primitive.{AccessFrequency}
use mxtasking.Util.Queue
use mxtasking.Util.Queue.{Queue}
use mxtasking.Util.MpscQueue
use mxtasking.Util.MpscQueue.{MpscQueue}
use mxtasking.Tasking.Task.{Priority, low, normal, TaskInterface}
use mxtasking.Tasking.TaskBuffer
use mxtasking.Tasking.TaskBuffer.{TaskBuffer, buffer_size}
use mxtasking.Tasking.TaskBuffer.Queues.{queue_source, mpsc_source}
use mxtasking.Tasking.Occupancy.{ChannelOccupancy, predict, revoke, predicted_usage}

-- memory::config::max_numa_nodes()
abbrev pub max_numa_nodes : ℕ
max_numa_nodes = 8

pub record Channel : Type 0 where
  pub remote_queues : Priority → ℕ → MpscQueue
  pub local_queues : Priority → Queue
  pub task_buffer : TaskBuffer
  pub id : ℕ
  pub numa_node_id : ℕ
  pub occupancy : ChannelOccupancy

abbrev pub same : Priority → Priority → Bool
same low low = true
same normal normal = true
same low normal = false
same normal low = false

abbrev pub set_local {ℓ} : {A : Type ℓ} → (Priority → A) → Priority → A → Priority → A
set_local f p q p' = if same p p' then q else f p'

abbrev pub set_remote {ℓ} : {A : Type ℓ} → (Priority → ℕ → A) → Priority → ℕ → A → Priority → ℕ → A
set_remote f p i q p' j = if same p p' && i == j then q else f p' j

pub next : Channel → ℕ × Channel
next c = let (task, b) = TaskBuffer.next c.task_buffer in (task, record c { task_buffer = b })

unfoldable pub push_back_local : (ℕ → TaskInterface) → Channel → ℕ → Channel
push_back_local tasks c task =
    let p = (tasks task).priority in
    record c { local_queues = set_local c.local_queues p (Queue.push_back (c.local_queues p) task) }

unfoldable pub push_back_remote : (ℕ → TaskInterface) → Channel → ℕ → ℕ → Channel
push_back_remote tasks c task numa_node_id =
    let p = (tasks task).priority in
    record c {
      remote_queues =
          set_remote c.remote_queues p numa_node_id
            (MpscQueue.push_back (c.remote_queues p numa_node_id) task);
    }

-- The queue that the round `i` of `fill` reads.
abbrev pub queue_index : Channel → ℕ → ℕ
queue_index c i = bit_and (c.numa_node_id + i) (max_numa_nodes - 1)

module _ (tasks : ℕ → TaskInterface) where
  -- One round of the loop: fill from the queue at `index`.
  pub fill_one : Priority → ℕ → ℕ → Channel → ℕ × Channel
  fill_one p index available c =
      let (n, b, q) =
        TaskBuffer.fill mpsc_source tasks c.task_buffer (c.remote_queues p index) available in
      (
        sub16 available n,
        record c { remote_queues = set_remote c.remote_queues p index q; task_buffer = b },
      )

  -- The loop over the remote queues, with `left` rounds to go, at round `i`.
  pub fill_remote : Priority → ℕ → ℕ → ℕ → Channel → ℕ × Channel
  fill_remote p zero i available c = (available, c)
  fill_remote p (suc left) i available c =
      let (available', c') = fill_one p (queue_index c i) available c in
      fill_remote p left (i + 1) available' c'

  pub fill_local : Priority → ℕ → Channel → ℕ × Channel
  fill_local p available c =
      let (n, b, q) =
        TaskBuffer.fill queue_source tasks c.task_buffer (c.local_queues p) available in
      (sub16 available n, record c { local_queues = set_local c.local_queues p q; task_buffer = b })

  -- `fill<P>(available)`
  pub fill_priority : Priority → ℕ → Channel → ℕ × Channel
  fill_priority p available c =
      let (a, c') = fill_local p available c in
      if ltb 0 a
      then (let (a', c'') = fill_remote p max_numa_nodes 0 a c' in (sub16 buffer_size a', c''))
      else (sub16 buffer_size a, c')

  -- `fill()`
  pub fill : Channel → ℕ × Channel
  fill c =
      let (size, c') = fill_priority normal (TaskBuffer.available_slots c.task_buffer) c in
      if TaskBuffer.empty c'.task_buffer then fill_priority low buffer_size c' else (size, c')

pub modify_predicted_usage : Channel → AccessFrequency → AccessFrequency → Channel
modify_predicted_usage c old new = record c { occupancy = predict (revoke c.occupancy old) new }
