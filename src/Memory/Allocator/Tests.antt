-- ===== src/Memory/Allocator/Tests.antt =====
-- Blocks and allocators of mx/memory/dynamic_size_allocator.cpp, at which the theorems on sequences
-- of their calls are applied.
use mxtasking.Prelude.{
  ℕ, ◌+◌, ◌*◌, ◌%◌, ◌^◌, ◌≤◌, ◌<◌, ◌≡◌, refl, [], ◌∷◌, none, some, arith, false,
}
use mxtasking.Memory.Alignment.{next_multiple}
use mxtasking.Memory.Dynamic
use mxtasking.Memory.Dynamic.{
  AllocationBlock, Allocation, FreeHeader, create, find_block, cut, is_free,
}
use mxtasking.Memory.Dynamic.Sorted.{IsSeparated}
use mxtasking.Memory.Dynamic.Owners.{covers, owners}
use mxtasking.Memory.Dynamic.Usage.{regions, Reaches, created, allocates, frees, first}
use mxtasking.Memory.Dynamic.Exclusive.{block_owners, allocated_alone}
use mxtasking.Memory.Allocator.{
  Allocator, create_allocator, initialize_empty, initialize_node, emplace_back, try_allocate,
  back_allocate, allocate, remove_if, destroyed,
}
use mxtasking.Memory.Allocator.Rounds.{allocate_ends, allocate_endless}

abbrev first_allocation : Allocation
first_allocation = record {
  address = 69376;
  header_address = 69360;
  header = record {
    size = 256;
    unused_size_before_header = 0;
    numa_node_id = 0;
    allocation_block_id = 1;
  };
}

abbrev second_allocation : Allocation
second_allocation = record {
  address = 69056;
  header_address = 69040;
  header = record {
    size = 304;
    unused_size_before_header = 0;
    numa_node_id = 0;
    allocation_block_id = 1;
  };
}

-- The block after one allocation.
abbrev one_allocated : AllocationBlock
one_allocated = (Dynamic.allocate (2 ^ 6) 200 (create 1 0 4096 65536)).1

one_allocated-Reaches : Reaches 1 0 4096 65536 one_allocated (first_allocation ∷ [])
unfolding Dynamic.allocate find_block cut
one_allocated-Reaches =
    allocates {a = first_allocation} 6 200 (omega arith) (omega arith) created refl

allocated_second : (Dynamic.allocate (2 ^ 6) 300 one_allocated).0 ≡ some second_allocation
unfolding Dynamic.allocate find_block cut
allocated_second = refl

allocated_alone_example :
    (69056 % 2 ^ 6 ≡ 0)
    × (69056 ≡ 69040 + 16)
    × (65536 ≤ 69100)
    × (69100 < 65536 + 4096)
    × (owners 69100 (regions (first_allocation ∷ [])) ≡ 0)
    × (owners 69100 (Dynamic.allocate (2 ^ 6) 300 one_allocated).1.free_elements ≡ 0)
allocated_alone_example =
    allocated_alone 1 0 4096 65536 (omega arith) (omega arith) one_allocated (first_allocation ∷ [])
      6 300 second_allocation one_allocated-Reaches (omega arith) (omega arith) allocated_second
      69100 (omega arith) (omega arith)

-- The second allocation is freed again.
abbrev one_freed : AllocationBlock
one_freed =
    Dynamic.free 69040 second_allocation.header (Dynamic.allocate (2 ^ 6) 300 one_allocated).1

block_owners_example :
    IsSeparated 0 one_freed.free_elements
    × (owners 69100 one_freed.free_elements + owners 69100 (regions (first_allocation ∷ []))
        ≡ covers 69100 (record { start = 65536; size = 4096 }))
block_owners_example =
    block_owners 1 0 4096 65536 (omega arith) (omega arith) one_freed (first_allocation ∷ [])
      (frees {a = second_allocation}
        (allocates {a = second_allocation} 6 300 (omega arith) (omega arith) one_allocated-Reaches
          allocated_second)
        first)
      69100

-- Blocks of the global heap, one behind the other.
abbrev global : ℕ → ℕ
global i = 2 ^ 40 + i * 2 ^ 30

-- A new allocator for one node.
abbrev new_allocator : Allocator
new_allocator = create_allocator global 0

new_allocator-flag : new_allocator.numa_allocation_flags 0 ≡ false
unfolding create_allocator initialize_empty initialize_node emplace_back
new_allocator-flag = refl

new_allocator-calls : new_allocator.calls ≡ 1
unfolding create_allocator initialize_empty initialize_node emplace_back
new_allocator-calls = refl

-- A new block of 2 ^ 28 bytes is needed for 2 ^ 25 bytes.
allocate_ends_example :
    (memory : Allocation) × (a' : Allocator) × (allocate 1 global 0 (2 ^ 6) (2 ^ 25) new_allocator
      ≡ some (memory, a'))
    × (a'.calls ≤ new_allocator.calls + 1)
    × (a'.numa_allocation_flags 0 ≡ false)
unfolding next_multiple
allocate_ends_example =
    allocate_ends global 0 6 (2 ^ 25) new_allocator new_allocator-flag (omega arith) (omega arith)
      (omega (arith, new_allocator-calls)) (omega arith)

new_allocator-refuses : (try_allocate 0 64 (2 ^ 28) new_allocator).0 ≡ none
unfolding back_allocate Dynamic.allocate create_allocator initialize_empty initialize_node
    emplace_back
new_allocator-refuses = refl

runs_on : allocate 100 global 0 64 (2 ^ 28) new_allocator ≡ none
runs_on =
    allocate_endless 100 global 0 64 (2 ^ 28) new_allocator new_allocator-flag (omega arith)
      (omega arith) (omega arith) new_allocator-refuses

-- The memory of an unused block in front of a block in use is not given back.
abbrev unused_block : AllocationBlock
unused_block = create 1 0 4096 131072

lost : destroyed (remove_if [] [] (unused_block ∷ one_allocated ∷ [])).1 ≡ []
unfolding remove_if destroyed is_free Dynamic.allocate find_block cut
lost = refl

given_back : destroyed (remove_if [] [] (one_allocated ∷ unused_block ∷ [])).1 ≡ 131072 ∷ []
unfolding remove_if destroyed is_free Dynamic.allocate find_block cut
given_back = refl
