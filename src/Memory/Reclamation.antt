-- ===== src/Memory/Reclamation.antt =====
-- mx/memory/reclamation/epoch_manager.h and epoch_manager.cpp, with the global garbage queue
-- (config::local_garbage_collection() is false). A resource is its address; the garbage queue and
-- the queue of deferred resources link resources through the same `next` fields, so the store goes
-- from one to the other. Reclaiming a resource is recorded in a list; what the resource and the
-- allocator do then is theirs.
pub mod Safety
pub mod Complete
use mxtasking.Prelude.{
  ℕ, zero, suc, ◌+◌, ◌-◌, ◌%◌, ◌^◌, min, List, [], ◌∷◌, ◌==◌, ltb, Bool, if◌then◌else◌, Option,
  none, some,
}
use mathlib.Core.Option
use mxtasking.Util.Queue
use mxtasking.Util.Queue.{Queue, null}
use mxtasking.Util.MpscQueue
use mxtasking.Util.MpscQueue.{MpscQueue}

-- tasking::config::max_cores()
abbrev pub max_cores : ℕ
max_cores = 128

pub record EpochManager : Type 0 where
  pub count_channels : ℕ
  pub global_epoch : ℕ
  pub local_epochs : ℕ → ℕ
  pub global_garbage_queue : MpscQueue
  pub remove_epoch : ℕ → ℕ

abbrev pub set_epoch : (ℕ → ℕ) → ℕ → ℕ → ℕ → ℕ
set_epoch f i e j = if j == i then e else f j

-- LocalEpoch::enter and LocalEpoch::leave of a channel.
unfoldable pub enter : EpochManager → ℕ → EpochManager
enter m channel = record m { local_epochs = set_epoch m.local_epochs channel m.global_epoch }

unfoldable pub leave : EpochManager → ℕ → EpochManager
leave m channel = record m { local_epochs = set_epoch m.local_epochs channel (2 ^ 32 - 1) }

-- The step of `enter_epoch_periodically` that enters a new epoch.
unfoldable pub next_epoch : EpochManager → EpochManager
next_epoch m = record m { global_epoch = (m.global_epoch + 1) % 2 ^ 32 }

-- The loop of `min_local_epoch`, with `left` rounds to go, at the channel `channel`.
min_loop : (ℕ → ℕ) → ℕ → ℕ → ℕ → ℕ
min_loop epochs zero channel least = least
min_loop epochs (suc left) channel least =
    min_loop epochs left (channel + 1) (min least (epochs channel))

unfoldable pub min_local_epoch : EpochManager → ℕ
unfolding min_loop
min_local_epoch m = min_loop m.local_epochs (m.count_channels - 1) 1 (m.local_epochs 0)

unfoldable pub add_to_garbage_collection : EpochManager → ℕ → EpochManager
add_to_garbage_collection m resource = record m {
  remove_epoch = set_epoch m.remove_epoch resource m.global_epoch;
  global_garbage_queue = MpscQueue.push_back m.global_garbage_queue resource;
}

-- The loop of `reclaim_epoch_garbage`, with `fuel` rounds at most: the resources that are
-- reclaimed, in order, and the two queues at its end; `none` is a loop that still runs.
unfoldable pub reclaim_loop :
    (ℕ → ℕ) → ℕ → ℕ → MpscQueue → Queue → List ℕ × Option (MpscQueue × Queue)
reclaim_loop remove_epoch min_epoch zero garbage deferred = ([], none)
reclaim_loop remove_epoch min_epoch (suc fuel) garbage deferred =
    let (resource, g) = MpscQueue.pop_front garbage in
    let d = Queue.push_back (record deferred { next = g.next }) resource in
    let (taken, at_end) = reclaim_loop remove_epoch min_epoch fuel g deferred in
    let kept = reclaim_loop remove_epoch min_epoch fuel (record g { next = d.next }) d in
    if resource == null
    then ([], some (g, deferred))
    else if ltb (remove_epoch resource) min_epoch
    then (resource ∷ taken, at_end)
    else kept

-- What follows the loop, when it ends: the deferred resources go back to the garbage queue.
unfoldable pub push_deferred : EpochManager → Option (MpscQueue × Queue) → Option EpochManager
push_deferred m none = none
push_deferred m (some (g, d)) =
    let garbage = if Queue.empty d then g else MpscQueue.push_back_all g d.head d.tail in
    some (record m { global_garbage_queue = garbage })

-- `reclaim_epoch_garbage`: the resources that it reclaims, and the manager when it ends.
unfoldable pub reclaim_epoch_garbage : ℕ → EpochManager → List ℕ × Option EpochManager
unfolding push_deferred
reclaim_epoch_garbage fuel m =
    let (reclaimed, at_end) =
      reclaim_loop m.remove_epoch (min_local_epoch m) fuel m.global_garbage_queue
        (record { head = null; tail = null; next = m.global_garbage_queue.next }) in
    (reclaimed, push_deferred m at_end)

-- A round of `enter_epoch_periodically`.
unfoldable pub epoch_round : ℕ → EpochManager → List ℕ × Option EpochManager
unfolding next_epoch reclaim_epoch_garbage
epoch_round fuel m = reclaim_epoch_garbage fuel (next_epoch m)

-- The loop of `reclaim_all`: the resources that it reclaims, and the queue when it ends.
unfoldable pub reclaim_all_loop : ℕ → MpscQueue → List ℕ × Option MpscQueue
reclaim_all_loop zero garbage = ([], none)
reclaim_all_loop (suc fuel) garbage =
    let (resource, g) = MpscQueue.pop_front garbage in
    let (rest, at_end) = reclaim_all_loop fuel g in
    if resource == null then ([], some g) else (resource ∷ rest, at_end)

unfoldable pub reclaim_all : ℕ → EpochManager → List ℕ × Option EpochManager
unfolding reclaim_all_loop
reclaim_all fuel m =
    let (reclaimed, at_end) = reclaim_all_loop fuel m.global_garbage_queue in
    (reclaimed, Option.map (λ g. record m { global_garbage_queue = g }) at_end)

-- `reset`; whether the allocator is free is an argument.
unfoldable pub reset : Bool → EpochManager → EpochManager
reset is_free m =
    if is_free
    then record m {
      global_epoch = 0;
      local_epochs = λ i. if ltb i max_cores then 2 ^ 32 - 1 else m.local_epochs i;
    }
    else m
