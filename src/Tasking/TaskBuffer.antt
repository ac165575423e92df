-- ===== src/Tasking/TaskBuffer.antt =====
-- mx/tasking/task_buffer.h and prefetch_slot.h: the ring of 64 slots from which a worker takes its
-- tasks. The array is a function of the index. A queue enters `fill` through the two calls that
-- the template makes of it.
pub mod Slots
pub mod Fill
pub mod Queues
use Prim.Native.Nat.{bit_and}
use mxtasking.Prelude.{
  ℕ, zero, suc, ◌+◌, ◌-◌, Bool, true, false, ◌==◌, ltb, leb, ◌&&◌, ◌||◌, if◌then◌else◌, add16,
  sub16,
}
use mxtasking.Resource.Ptr.{Ptr}
use mxtasking.Tasking.Task.{TaskInterface, Target, on_resource}

-- config::task_buffer_size(), the template's S
abbrev pub buffer_size : ℕ
buffer_size = 64

-- The addresses that the next prefetch of the slot touches, null for none.
pub record PrefetchSlot : Type 0 where
  pub task : ℕ
  pub resource : ℕ
  pub resource_size : ℕ

abbrev pub no_prefetch : PrefetchSlot
no_prefetch = record { task = 0; resource = 0; resource_size = 0 }

-- PrefetchSlot::operator=
assign : PrefetchSlot → ℕ → Target → PrefetchSlot
assign p task (on_resource r size) = record {
  task = task;
  resource = r.object_pointer;
  resource_size = size;
}
assign p task _ = record p { task = task }

-- PrefetchSlot::operator(): the prefetch instructions have no effect on the state.
unfoldable pub prefetched : PrefetchSlot → PrefetchSlot
prefetched p = record p { task = 0; resource = 0 }

pub record Slot : Type 0 where
  pub task : ℕ
  pub prefetch_slot : PrefetchSlot

pub record TaskBuffer : Type 0 where
  pub prefetch_distance : ℕ
  pub head : ℕ
  pub tail : ℕ
  pub buffer : ℕ → Slot

abbrev pub create : ℕ → TaskBuffer
create distance = record {
  prefetch_distance = distance;
  head = 0;
  tail = 0;
  buffer = λ _. record { task = 0; prefetch_slot = no_prefetch };
}

abbrev pub update : (ℕ → Slot) → ℕ → Slot → ℕ → Slot
update f i s j = if i == j then s else f j

unfoldable pub empty : TaskBuffer → Bool
empty b = (b.buffer b.head).task == 0

unfoldable pub size : TaskBuffer → ℕ
size b = if leb b.head b.tail then b.tail - b.head else buffer_size - (b.head - b.tail)

unfoldable pub available_slots : TaskBuffer → ℕ
unfolding size
available_slots b = buffer_size - size b

unfoldable pub normalize : ℕ → ℕ
normalize index = bit_and index (buffer_size - 1)

unfoldable pub normalize_backward : ℕ → ℕ → ℕ
normalize_backward index offset =
    if leb offset index then index - offset else sub16 buffer_size (offset - index)

-- The task that is returned is null if the slot at the head is empty.
unfoldable pub next : TaskBuffer → ℕ × TaskBuffer
next b =
    let slot = b.buffer b.head in
    if slot.task == 0 then (0, b) else (
      slot.task,
      record b {
        head = normalize (add16 b.head 1);
        buffer =
            update b.buffer b.head
              (record { task = 0; prefetch_slot = prefetched slot.prefetch_slot });
      },
    )

-- The queue that the template of `fill` takes.
pub record TaskSource : Type 1 where
  pub Q : Type 0
  pub is_empty : Q → Bool
  pub pop_front : Q → ℕ × Q

-- The body of the loop of `fill`, for the task that was popped.
unfoldable pub put : (ℕ → TaskInterface) → TaskBuffer → Bool → ℕ → ℕ → TaskBuffer
unfolding assign
put tasks b is_prefetching prefetch_tail task =
    let slot = b.buffer prefetch_tail in
    let with_prefetch =
      if is_prefetching
      then update b.buffer prefetch_tail
          (record slot { prefetch_slot = assign slot.prefetch_slot task (tasks task).target })
      else b.buffer in
    record b {
      tail = normalize (add16 b.tail 1);
      buffer = update with_prefetch b.tail (record (with_prefetch b.tail) { task = task });
    }

module _ (source : TaskSource) (tasks : ℕ → TaskInterface) where
  open source use {Q, is_empty, pop_front}

  -- The loop of `fill`, with `left` rounds to go of `count`, at round `i`.
  unfoldable pub fill_loop : ℕ → ℕ → ℕ → ℕ → TaskBuffer → Q → ℕ × TaskBuffer × Q
  fill_loop zero i size prefetch_tail b q = (i, b, q)
  fill_loop (suc left) i size prefetch_tail b q =
      let (task, q') = pop_front q in
      let rest =
        fill_loop left (i + 1) size (normalize (add16 prefetch_tail 1))
          (put tasks b (ltb 0 b.prefetch_distance && leb b.prefetch_distance (size + i))
            prefetch_tail task)
          q' in
      if task == 0 then (i, b, q') else rest

  unfoldable pub fill : TaskBuffer → Q → ℕ → ℕ × TaskBuffer × Q
  fill b q count =
      if count == 0 || is_empty q
      then (0, b, q)
      else fill_loop count 0 (buffer_size - count) (normalize_backward b.tail b.prefetch_distance) b
          q
