-- ===== src/Memory/Tests.antt =====
-- A block and an epoch manager of mx/memory, at which the theorems on them are applied.
use mxtasking.Prelude.{
  ℕ, List, length, ◌*◌, ◌⊎◌, ◌%◌, ◌≤◌, ◌<◌, ◌+◌, ◌==◌, if◌then◌else◌, ◌≡◌, refl, [], ◌∷◌, some,
  arith, ◌^◌,
}
use mxtasking.Memory.Dynamic
use mxtasking.Memory.Dynamic.{
  AllocationBlock, Allocation, FreeHeader, allocate, free, find_block, cut,
}
use mxtasking.Memory.Dynamic.Sorted.{IsSeparated}
use mxtasking.Memory.Dynamic.RoundTrip.{free-allocate}
use mxtasking.Util.MpscQueue
use mxtasking.Util.Queue.Chain.{NotIn}
use mxtasking.Memory.Reclamation.{EpochManager, add_to_garbage_collection, reclaim_epoch_garbage}
use mxtasking.Memory.Reclamation.Safety.{
  AllBefore, reclaim_epoch_garbage-AllBefore, protected_reader,
}
use mxtasking.Memory.Fixed
use mxtasking.Memory.Fixed.{Op, allocates, frees}
use mxtasking.Memory.Fixed.Chunks.{IsHeap, IsApart, chunk_of, draw-IsApart}
use mxtasking.Memory.Fixed.Links.{objects}
use mxtasking.Memory.Fixed.Objects.{chunk_objects}
use mxtasking.Memory.Fixed.Runs.{IsLegal, stack_run, core_run_refines}
use mxtasking.Memory.Alignment.{next_multiple, next_multiple-least}

-- Two free elements; the first is too small.
abbrev block : AllocationBlock
block = record (Dynamic.create 1 0 4096 65536) {
  free_elements = record { start = 65536; size = 128 } ∷ record { start = 66000; size = 2048 } ∷ [];
  available_size = 2176;
}

block-IsSeparated : IsSeparated 0 block.free_elements
block-IsSeparated =
    ((omega arith, omega arith, omega arith), ((omega arith, omega arith, omega arith), tt))

-- What `allocate(64, 200)` returns.
abbrev allocation : Allocation
allocation = record {
  address = 67840;
  header_address = 67824;
  header = record {
    size = 208;
    unused_size_before_header = 0;
    numa_node_id = 0;
    allocation_block_id = 1;
  };
}

allocated : (allocate (2 ^ 6) 200 block).0 ≡ some allocation
unfolding allocate find_block cut
allocated = refl

free-allocate_example :
    (free allocation.header_address allocation.header (allocate (2 ^ 6) 200 block).1).free_elements
    ≡ block.free_elements
free-allocate_example =
    free-allocate 6 200 (omega arith) (omega arith) block {a = allocation} block-IsSeparated
      allocated

-- Two channels in the epochs 5 and 6, and two removed resources, of which one may be reclaimed.
abbrev manager : EpochManager
manager = record {
  count_channels = 2;
  global_epoch = 6;
  local_epochs = λ c. c + 5;
  global_garbage_queue =
      MpscQueue.push_back (MpscQueue.push_back (MpscQueue.create 9 (λ _. 0)) 64) 128;
  remove_epoch = λ r. if r == 64 then 4 else 6;
}

reclaim_epoch_garbage-AllBefore_example :
    AllBefore manager.remove_epoch 6 (reclaim_epoch_garbage 3 manager).0
reclaim_epoch_garbage-AllBefore_example = reclaim_epoch_garbage-AllBefore 3 manager 1 (omega arith)

protected_reader_example :
    NotIn 192 (reclaim_epoch_garbage 4 (add_to_garbage_collection manager 192)).0
protected_reader_example = protected_reader 4 manager 192 1 (omega arith) (omega arith)

next_multiple-least_example :
    (next_multiple 70 64 % 64 ≡ 0)
    × (70 ≤ next_multiple 70 64)
    × ((next_multiple 70 64 ≡ 64) ⊎ (next_multiple 70 64 < 70 + 64))
next_multiple-least_example = next_multiple-least 70 64 (omega arith) (omega arith)

-- Regions of 2 GB, one behind the other.
abbrev regions : ℕ → ℕ
regions i = 2 ^ 40 + i * 2 ^ 31

regions-IsHeap : IsHeap regions 0 2
regions-IsHeap = record {
  pos = λ i h. omega arith;
  bounded = λ i h. omega arith;
  apart = λ i j h k n. ground arith;
}

draw-IsApart_example :
    (addresses : List ℕ) × (p : Fixed.ProcessorHeap) × (Fixed.draw 200 regions
        (Fixed.create regions 0)
      ≡ some (addresses, p))
    × (length addresses ≡ 200)
    × IsApart addresses
draw-IsApart_example = draw-IsApart regions 0 2 200 regions-IsHeap (omega arith)

-- Two objects fit into a chunk.
abbrev object_size : ℕ
object_size = 2 ^ 23

abbrev calls : List Op
calls = allocates ∷ frees (2 ^ 40) ∷ allocates ∷ allocates ∷ allocates ∷ []

calls-IsLegal :
    IsLegal (chunk_objects regions 0 object_size) 1 (chunk_objects regions 0 object_size 0) calls
unfolding objects chunk_of
calls-IsLegal = (omega arith, (omega arith, tt), tt)

core_run_refines_example :
    (c c' : Fixed.CoreHeap) × (Fixed.create_core object_size regions
        (Fixed.create regions 0)
        (λ _. 0)
      ≡ some c)
    × (Fixed.run object_size regions c calls
        ≡ some (
          stack_run
              (chunk_objects regions 0 object_size)
              1
              (chunk_objects regions 0 object_size 0)
              calls,
          c',
        ))
core_run_refines_example =
    core_run_refines object_size regions 0 2 (λ _. 0) calls regions-IsHeap (omega arith)
      (omega arith) (omega arith) calls-IsLegal
