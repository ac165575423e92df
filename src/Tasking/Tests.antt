-- ===== src/Tasking/Tests.antt =====
-- Tasks, channels and workers at which the theorems of this directory are applied.
use mxtasking.Prelude.{
  ℕ, ◌+◌, ◌<◌, ◌≤◌, ◌≡◌, refl, [], ◌∷◌, some, inl, inr, ◌⊎◌, arith, Bool, true, false, ◌==◌,
  if◌then◌else◌,
}
use mxtasking.Sync.Primitive.{high, unused, olfit, schedule_all}
use mxtasking.Resource.Ptr.{Ptr}
use mxtasking.Util.MpscQueue
use mxtasking.Util.MpscQueue.Fifo.{create-IsMpsc}
use mxtasking.Util.Queue.{Queue}
use mxtasking.Util.Queue.Fifo.{IsQueue, push_back-IsQueue}
use mxtasking.Util.Queue
use mxtasking.Tasking.Task.{low, normal, TaskInterface, fresh_task, on_resource}
use mxtasking.Tasking.TaskBuffer
use mxtasking.Tasking.TaskBuffer.Slots.{create-IsBuffer}
use mxtasking.Tasking.TaskBuffer.Fill.{Filled, fill-Filled}
use mxtasking.Tasking.TaskBuffer.Queues.{queue_source, queue_laws}
use mxtasking.Tasking.Occupancy.{
  ChannelOccupancy, no_predictions, predict, revoke, counter, predicted_usage, rank,
  predicted_usage_highest, revoke-predict,
}
use mxtasking.Tasking.Channel
use mxtasking.Tasking.Channel.{Channel, push_back_local, push_back_remote, fill}
use mxtasking.Tasking.Channel.Contents.{
  Contents, IsChannel, push_back_local-IsChannel, push_back_remote-IsChannel,
}
use mxtasking.Tasking.Channel.Refill.{Fetched, fill-Fetched}
use mxtasking.Tasking.Worker.{Worker, execute_round}
use mxtasking.Tasking.Worker.Drain.{execute_round-schedule}
use mxtasking.Tasking.Scheduler
use mxtasking.Tasking.Scheduler.{Scheduler, destination, schedule-destination, update}
use mxtasking.Sync.Primitive.{exclusive}
use mxtasking.Resource.Builder.{Hint, Builder, no_hint, build}
use mxtasking.Tasking.Isolation.Built.{AreIsolated, built-isolated}
use mxtasking.Tasking.Isolation.{Apart, execution, writer_isolated, exclusive_isolated}

-- Task 3 has low priority, all others are as they are made.
abbrev tasks : ℕ → TaskInterface
tasks task = if task == 3 then record fresh_task { priority = low } else fresh_task

abbrev empty_queue : Queue
empty_queue = record { head = 0; tail = 0; next = λ _. 0 }

empty_queue-IsQueue : IsQueue empty_queue []
empty_queue-IsQueue = record { chain = refl; ends = refl; nodup = tt }

abbrev empty_channel : Channel
empty_channel = record {
  remote_queues = λ _ _. MpscQueue.create 100 (λ _. 0);
  local_queues = λ _. empty_queue;
  task_buffer = TaskBuffer.create 2;
  id = 1;
  numa_node_id = 5;
  occupancy = no_predictions;
}

abbrev nothing : Contents
nothing = record { buffer = []; locals = λ _. []; remotes = λ _ _. [] }

empty_channel-IsChannel : IsChannel empty_channel nothing
empty_channel-IsChannel = record {
  buffered = create-IsBuffer 2;
  local = λ _. empty_queue-IsQueue;
  remote = λ _ _ _. create-IsMpsc 100 (λ _. 0) (omega arith);
}

-- A task of normal priority from another region, and one of low priority from this channel.
abbrev two_tasks : Channel
two_tasks = push_back_local tasks (push_back_remote tasks empty_channel 7 6) 3

abbrev two_contents : Contents
two_contents = record {
  buffer = [];
  locals = Channel.set_local (λ _. []) low (3 ∷ []);
  remotes = Channel.set_remote (λ _ _. []) normal 6 (7 ∷ []);
}

two_tasks-IsChannel : IsChannel two_tasks two_contents
unfolding MpscQueue.create
two_tasks-IsChannel =
    push_back_local-IsChannel tasks _ _ 3
      (push_back_remote-IsChannel tasks empty_channel nothing 7 6 empty_channel-IsChannel
        (omega arith) (omega arith) (omega arith, tt))
      (omega arith) tt

fill-Fetched_example : Fetched 5 two_contents (fill tasks two_tasks)
unfolding push_back_local push_back_remote
fill-Fetched_example = fill-Fetched tasks two_tasks two_contents two_tasks-IsChannel (omega arith)

abbrev worker : Worker
worker = record { channel = two_tasks; channel_size = 0; prefetch_distance = 2; local_epoch = 0 }

execute_round-schedule_example : execute_round tasks 3 (λ n. 10 + n) worker ≡ 7 ∷ 3 ∷ []
unfolding push_back_local push_back_remote
execute_round-schedule_example =
    execute_round-schedule tasks 3 (λ n. 10 + n) worker two_contents two_tasks-IsChannel
      (omega arith) (omega arith)

one_queued : IsQueue (Queue.push_back empty_queue 4) (4 ∷ [])
one_queued = push_back-IsQueue empty_queue [] 4 empty_queue-IsQueue (omega arith) tt

fill-Filled_example :
    Filled queue_source queue_laws tasks []
      (4 ∷ [])
      0
      2
      (TaskBuffer.fill queue_source tasks (TaskBuffer.create 2) (Queue.push_back empty_queue 4) 2)
fill-Filled_example =
    fill-Filled queue_source queue_laws tasks 2 (TaskBuffer.create 2)
      (Queue.push_back empty_queue 4) [] (4 ∷ []) (create-IsBuffer 2) one_queued (omega arith)

abbrev one_high : ChannelOccupancy
one_high = record no_predictions { high_count = 1; unused_count = 4 }

predicted_usage_highest_example :
    (rank (predicted_usage one_high) ≤ rank unused)
    × (0 < counter one_high (predicted_usage one_high))
predicted_usage_highest_example = predicted_usage_highest one_high unused (omega arith)

revoke-predict_example : revoke (predict one_high high) high ≡ one_high
revoke-predict_example = revoke-predict one_high high (omega arith)

-- Resources of channel 3, under a version lock and on scheduled channels.
abbrev versioned : Ptr
versioned = record {
  object_pointer = 4096;
  info = record { channel_id = 3; synchronization_primitive = olfit };
}

abbrev scheduled : Ptr
scheduled = record {
  object_pointer = 8192;
  info = record { channel_id = 3; synchronization_primitive = schedule_all };
}

abbrev task_on : Bool → Ptr → TaskInterface
task_on ro r = record fresh_task { is_readonly = ro; target = on_resource r 64 }

writer_isolated_example :
    (destination (task_on false versioned) 1 ≡ destination (task_on true versioned) 2)
    ⊎ Apart
        (execution (task_on false versioned) (destination (task_on false versioned) 1))
        (execution (task_on true versioned) (destination (task_on true versioned) 2))
writer_isolated_example =
    writer_isolated versioned (task_on false versioned) (task_on true versioned) 64 64 1 2 refl refl
      refl (ground arith)

exclusive_isolated_example :
    (destination (task_on true scheduled) 1 ≡ destination (task_on true scheduled) 2)
    ⊎ Apart
        (execution (task_on true scheduled) (destination (task_on true scheduled) 1))
        (execution (task_on true scheduled) (destination (task_on true scheduled) 2))
exclusive_isolated_example =
    exclusive_isolated scheduled (task_on true scheduled) (task_on true scheduled) 64 64 1 2 refl
      refl (inr refl)

abbrev two_channels : Scheduler
two_channels = record {
  channels = λ _. empty_channel;
  count_channels = 8;
  channel_numa_node_map = λ c. c;
}

-- A writing task on the versioned resource is kept, one on the scheduled resource is sent away.
abbrev spawned : ℕ → TaskInterface
spawned task = if task == 3 then task_on false scheduled else task_on false versioned

schedule-destination_example :
    Scheduler.schedule spawned two_channels 3 1
    ≡ some (record two_channels {
      channels = update (λ _. empty_channel) 3 (push_back_remote spawned empty_channel 3 1);
    })
unfolding destination Scheduler.keep_task_local
schedule-destination_example = schedule-destination spawned two_channels 3 1 (λ n. ground arith)

abbrev exclusive_hint : Hint
exclusive_hint = record no_hint { isolation_level = exclusive }

abbrev builder : Builder
builder = record {
  count_channels = 4;
  channel_numa_node_map = λ _. 0;
  occupancy = λ _. no_predictions;
  round_robin_channel_id = 7;
}

abbrev built : Ptr
built = (build builder exclusive_hint 4096).0

built-isolated_example : AreIsolated (task_on true built) (task_on true built) 1 2
built-isolated_example =
    built-isolated builder exclusive_hint 4096 (task_on true built) (task_on true built) 64 64 1 2
      refl refl (inl refl)
