-- ===== src/Tasking/Isolation.antt =====
-- How a worker of mx/tasking/worker.cpp executes a task with regard to the synchronization of the
-- resource, and that this keeps the accesses to a resource apart.
pub mod Built
use mxtasking.Prelude.{
  ℕ, ◌≡◌, ◌≢◌, refl, ◌⊎◌, inl, inr, Bool, true, false, Bool-cases, ◌==◌, if◌then◌else◌, arith,
}
use mxtasking.Sync.Primitive.{
  Primitive, no_primitive, exclusive_latch, schedule_all, reader_writer_latch, schedule_writer,
  olfit,
}
use mxtasking.Resource.Ptr.{Ptr, channel_of, primitive_of}
use mxtasking.Tasking.Task.{TaskInterface, on_resource}
use mxtasking.Tasking.Scheduler.{destination, keep_task_local}

-- Worker::synchronization_primitive
abbrev pub synchronization_primitive : TaskInterface → Primitive
synchronization_primitive t = elim (t.target) [
  | on_resource r size ↦ primitive_of r
  | _ ↦ no_primitive
]

-- What surrounds the call of the task's `execute`: nothing, the spinlock, the reader/writer lock
-- in either mode, the version check of an optimistic read, or the version lock, taken by a single
-- writer or by one of many.
pub data Execution : Type 0 where
  plain latched shared_latch unique_latch optimistic_read single_writer many_writers : Execution

-- The choice for a task on a resource of the channel `owner`, made on the channel `channel_id`.
execution_of : Bool → Primitive → ℕ → ℕ → Execution
execution_of is_readonly schedule_writer owner channel_id =
    if is_readonly then (if owner == channel_id then plain else optimistic_read) else single_writer
execution_of is_readonly olfit owner channel_id =
    if is_readonly then optimistic_read else many_writers
execution_of is_readonly schedule_all owner channel_id = plain
execution_of is_readonly no_primitive owner channel_id = plain
execution_of is_readonly reader_writer_latch owner channel_id =
    if is_readonly then shared_latch else unique_latch
execution_of is_readonly exclusive_latch owner channel_id = latched

pub execution : TaskInterface → ℕ → Execution
unfolding execution_of
execution t channel_id = elim (t.target) [
  | on_resource r size ↦ execution_of t.is_readonly (primitive_of r) (channel_of r) channel_id
  | _ ↦ plain
]

-- Two executions on different channels that do not overlap on one resource, or of which the
-- reading one notices the other by the version and runs again.
pub data Apart : Execution → Execution → Type 0 where
  both_latched : Apart latched latched
  unique_unique : Apart unique_latch unique_latch
  unique_shared : Apart unique_latch shared_latch
  single_read : Apart single_writer optimistic_read
  many_read : Apart many_writers optimistic_read
  many_many : Apart many_writers many_writers

abbrev place : Bool → Primitive → ℕ → ℕ → ℕ
place ro p owner current = if keep_task_local ro p owner current then current else owner

abbrev Separate : Bool → Bool → Primitive → ℕ → ℕ → ℕ → Type 0
Separate a b p owner ca cb =
    (place a p owner ca ≡ place b p owner cb)
    ⊎ Apart (execution_of a p owner (place a p owner ca))
        (execution_of b p owner (place b p owner cb))

-- A writer and any other task.
writer-Separate :
    (b : Bool) (p : Primitive) (owner ca cb : ℕ) → p ≢ no_primitive → Separate false b p owner ca cb
unfolding keep_task_local execution_of
writer-Separate b no_primitive owner ca cb h = absurd (h refl)
writer-Separate b exclusive_latch owner ca cb h = inr both_latched
writer-Separate b schedule_all owner ca cb h = inl (ground arith)
writer-Separate true reader_writer_latch owner ca cb h = inr unique_shared
writer-Separate false reader_writer_latch owner ca cb h = inr unique_unique
writer-Separate true schedule_writer owner ca cb h = elim (Bool-cases (owner == cb)) [
  | inl e ↦ inl (ground arith)
  | inr e ↦ inr (rw e (rw e single_read))
]
writer-Separate false schedule_writer owner ca cb h = inl (ground arith)
writer-Separate true olfit owner ca cb h = inr many_read
writer-Separate false olfit owner ca cb h = inr many_many

-- A writing task and any other task on one resource with a synchronization primitive, spawned
-- from any two channels: either both are executed on the same channel, one after the other, or
-- they are executed under latches that keep them apart, the reading one, where there is one,
-- possibly by a version check that makes it run again.
pub writer_isolated :
    (r : Ptr) (w t : TaskInterface) (n m cw ct : ℕ)
    → w.target ≡ on_resource r n
    → t.target ≡ on_resource r m
    → w.is_readonly ≡ false
    → primitive_of r ≢ no_primitive
    → (destination w cw ≡ destination t ct)
      ⊎ Apart (execution w (destination w cw)) (execution t (destination t ct))
unfolding destination execution
writer_isolated r w t n m cw ct ew et ro h =
    rw (ew, et, ro) (writer-Separate t.is_readonly (primitive_of r) (channel_of r) cw ct h)

-- Any two tasks, readers included, on one resource under the exclusive latch or on scheduled
-- channels, spawned from any two channels, are executed on the same channel or under the latch.
pub exclusive_isolated :
    (r : Ptr) (a b : TaskInterface) (n m ca cb : ℕ)
    → a.target ≡ on_resource r n
    → b.target ≡ on_resource r m
    → (primitive_of r ≡ exclusive_latch) ⊎ (primitive_of r ≡ schedule_all)
    → (destination a ca ≡ destination b cb)
      ⊎ Apart (execution a (destination a ca)) (execution b (destination b cb))
unfolding destination execution execution_of keep_task_local
exclusive_isolated r a b n m ca cb ea eb (inl p) = rw (ea, eb, p) (inr both_latched)
exclusive_isolated r a b n m ca cb ea eb (inr p) = rw (ea, eb, p) (inl (ground arith))
