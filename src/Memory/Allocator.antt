-- ===== src/Memory/Allocator.antt =====
-- mx/memory/dynamic_size_allocator.h and dynamic_size_allocator.cpp, the allocator: the blocks of
-- each NUMA node, the next id of a block, and the flag that one thread takes to add a block. The
-- calls run one after the other. The memory that the n-th call of the global heap returns is at
-- `global n`, and `returned` is the memory that was given back to it. `none` is a call that still
-- runs.

pub mod Rounds
pub mod Defragment
mod Tests
use mxtasking.Prelude.{
  ℕ, zero, suc, ◌+◌, ◌*◌, ◌%◌, ◌^◌, max, List, [], ◌∷◌, ◌++◌, Option, none, some, Bool, true, false,
  not, ◌==◌, ◌&&◌, if◌then◌else◌, sub64, add32,
}
use mxtasking.Memory.Alignment.{next_multiple}
use mxtasking.Memory.Dynamic
use mxtasking.Memory.Dynamic.{AllocationBlock, AllocatedHeader, Allocation, create, header_size}

pub record Allocator : Type 0 where
  pub numa_allocation_blocks : ℕ → List AllocationBlock
  pub numa_allocation_flags : ℕ → Bool
  pub next_allocation_id : ℕ → ℕ
  pub calls : ℕ
  pub returned : List ℕ

abbrev pub at_node {ℓ} : {A : Type ℓ} → (ℕ → A) → ℕ → A → ℕ → A
at_node f n v i = if n == i then v else f i

-- `emplace_back` of a new block, with the next id of the node.
unfoldable pub emplace_back : (ℕ → ℕ) → ℕ → ℕ → Allocator → Allocator
emplace_back global numa_node_id size a =
    let next_id = a.next_allocation_id numa_node_id in
    let block = create next_id numa_node_id size (global a.calls) in
    record a {
      next_allocation_id = at_node a.next_allocation_id numa_node_id (add32 next_id 1);
      numa_allocation_blocks =
          at_node a.numa_allocation_blocks numa_node_id
            (a.numa_allocation_blocks numa_node_id ++ block ∷ []);
      calls = a.calls + 1;
    }

-- The thread that has taken the flag: it adds the block, and clears the flag.
unfoldable pub add_block : (ℕ → ℕ) → ℕ → ℕ → Allocator → Allocator
unfolding emplace_back
add_block global numa_node_id size a =
    let locked = record a {
      numa_allocation_flags = at_node a.numa_allocation_flags numa_node_id true;
    } in
    let added = emplace_back global numa_node_id size locked in
    record added { numa_allocation_flags = at_node added.numa_allocation_flags numa_node_id false }

-- With the flag set, the call waits for the thread that has set it.
unfoldable pub allocate_new_block : (ℕ → ℕ) → ℕ → ℕ → Allocator → Option Allocator
unfolding add_block
allocate_new_block global numa_node_id size a =
    if a.numa_allocation_flags numa_node_id
    then none
    else some (add_block global numa_node_id size a)

-- `blocks.back().allocate(alignment, size)`; the code keeps a block in each list.
unfoldable pub back_allocate :
    ℕ → ℕ → List AllocationBlock → Option Allocation × List AllocationBlock
back_allocate alignment size [] = (none, [])
back_allocate alignment size (b ∷ []) =
    let (memory, b') = Dynamic.allocate alignment size b in (memory, b' ∷ [])
back_allocate alignment size (b ∷ c ∷ blocks) =
    let (memory, blocks') = back_allocate alignment size (c ∷ blocks) in (memory, b ∷ blocks')

abbrev pub default_alloc_size : ℕ
default_alloc_size = 2 ^ 28

abbrev pub size_to_alloc : ℕ → ℕ
size_to_alloc size = max default_alloc_size (next_multiple size 64)

abbrev pub try_allocate : ℕ → ℕ → ℕ → Allocator → Option Allocation × Allocator
try_allocate numa_node_id alignment size a =
    let (memory, blocks) = back_allocate alignment size (a.numa_allocation_blocks numa_node_id) in
    (
      memory,
      record a { numa_allocation_blocks = at_node a.numa_allocation_blocks numa_node_id blocks },
    )

-- The loop over new blocks, for `fuel` rounds.
unfoldable pub allocate_loop : ℕ → (ℕ → ℕ) → ℕ → ℕ → ℕ → Allocator → Option (Allocation × Allocator)
unfolding allocate_new_block back_allocate
allocate_loop zero global numa_node_id alignment size a = none
allocate_loop (suc fuel) global numa_node_id alignment size a =
    elim (allocate_new_block global numa_node_id (size_to_alloc size) a) [
      | none ↦ none
      | some a' ↦
          let r = try_allocate numa_node_id alignment size a' in
          let rest = allocate_loop fuel global numa_node_id alignment size r.1 in
          elim (r.0) [ some memory ↦ some (memory, r.1) | none ↦ rest ]
    ]

unfoldable pub allocate : ℕ → (ℕ → ℕ) → ℕ → ℕ → ℕ → Allocator → Option (Allocation × Allocator)
unfolding allocate_loop back_allocate
allocate fuel global numa_node_id alignment size a =
    let r = try_allocate numa_node_id alignment size a in
    elim (r.0) [
      | some memory ↦ some (memory, r.1)
      | none ↦ allocate_loop fuel global numa_node_id alignment size r.1
    ]

-- The block of the id frees the memory.
unfoldable pub free_in : ℕ → AllocatedHeader → List AllocationBlock → List AllocationBlock
free_in header_address header [] = []
free_in header_address header (block ∷ blocks) =
    let rest = free_in header_address header blocks in
    if header.allocation_block_id == block.id
    then Dynamic.free header_address header block ∷ blocks
    else block ∷ rest

unfoldable pub free : ℕ → AllocatedHeader → Allocator → Allocator
unfolding free_in
free address header a =
    let n = header.numa_node_id in
    record a {
      numa_allocation_blocks =
          at_node a.numa_allocation_blocks n
            (free_in (sub64 address header_size) header (a.numa_allocation_blocks n));
    }

-- `AllocationBlock(AllocationBlock &&other)` and the move assignment leave `other` so.
abbrev pub moved_from : AllocationBlock → AllocationBlock
moved_from other = record other { allocated_block = 0; free_elements = [] }

-- `std::remove_if` with `is_free`: the blocks that are kept so far, those up to the block that is
-- looked at, and the others. A move assignment takes the place of the first of those between.
unfoldable pub remove_if :
    List AllocationBlock
    → List AllocationBlock
    → List AllocationBlock
    → List AllocationBlock × List AllocationBlock
remove_if kept gap [] = (kept, gap)
remove_if kept gap (b ∷ blocks) =
    if Dynamic.is_free b then remove_if kept (gap ++ b ∷ []) blocks else (elim gap [
      | [] ↦ remove_if (kept ++ b ∷ []) [] blocks
      | g ∷ gs ↦ remove_if (kept ++ b ∷ []) (gs ++ moved_from b ∷ []) blocks
    ])

-- `~AllocationBlock()` of each: the memory that is given back.
unfoldable pub destroyed : List AllocationBlock → List ℕ
destroyed [] = []
destroyed (b ∷ blocks) =
    if b.allocated_block == 0 then destroyed blocks else b.allocated_block ∷ destroyed blocks

-- A call for each node below `nodes`, the first node first.
abbrev pub each_node : ℕ → (ℕ → Allocator → Allocator) → Allocator → Allocator
each_node zero f a = a
each_node (suc nodes) f a = f nodes (each_node nodes f a)

unfoldable pub remove_unused : ℕ → Allocator → Allocator
unfolding remove_if destroyed
remove_unused i a =
    let (kept, gap) = remove_if [] [] (a.numa_allocation_blocks i) in
    record a {
      numa_allocation_blocks = at_node a.numa_allocation_blocks i kept;
      returned = a.returned ++ destroyed gap;
    }

unfoldable pub initialize_node : (ℕ → ℕ) → ℕ → Allocator → Allocator
unfolding emplace_back
initialize_node global i a = elim (a.numa_allocation_blocks i) [
  | [] ↦ emplace_back global i (4096 * 4096) a
  | b ∷ blocks ↦ a
]

-- The nodes are those up to `system::topology::max_node_id()`.
unfoldable pub initialize_empty : (ℕ → ℕ) → ℕ → Allocator → Allocator
unfolding initialize_node
initialize_empty global max_node_id a = each_node (max_node_id + 1) (initialize_node global) a

unfoldable pub defragment : (ℕ → ℕ) → ℕ → Allocator → Allocator
unfolding remove_unused initialize_empty
defragment global max_node_id a =
    initialize_empty global max_node_id (each_node (max_node_id + 1) remove_unused a)

-- `Allocator()`
unfoldable pub create_allocator : (ℕ → ℕ) → ℕ → Allocator
unfolding initialize_empty
create_allocator global max_node_id = initialize_empty global max_node_id (record {
  numa_allocation_blocks = λ _. [];
  numa_allocation_flags = λ _. false;
  next_allocation_id = λ _. 0;
  calls = 0;
  returned = [];
})

abbrev pub all_free : List AllocationBlock → Bool
all_free [] = true
all_free (b ∷ blocks) = Dynamic.is_free b && all_free blocks

unfoldable pub is_free : ℕ → Allocator → Bool
is_free zero a = all_free (a.numa_allocation_blocks zero)
is_free (suc max_node_id) a =
    is_free max_node_id a && all_free (a.numa_allocation_blocks (suc max_node_id))

unfoldable pub release_allocated_memory : ℕ → Allocator → Allocator
unfolding destroyed
release_allocated_memory max_node_id a =
    each_node (max_node_id + 1)
      (λ i a'. record a' {
        numa_allocation_blocks = at_node a'.numa_allocation_blocks i [];
        next_allocation_id = at_node a'.next_allocation_id i 0;
        returned = a'.returned ++ destroyed (a'.numa_allocation_blocks i);
      })
      a
