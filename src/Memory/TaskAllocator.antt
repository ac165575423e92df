-- ===== src/Memory/TaskAllocator.antt =====
-- mx/memory/fixed_size_allocator.h, the allocator over the cores: a processor heap for each NUMA node
-- and a core heap for each core, all over one store of `next` fields. The address that the n-th call
-- of the global heap for a node returns is `global node n`. `none` is a call that still waits.
pub mod Cores
use mxtasking.Prelude.{
  ℕ, zero, suc, Bool, true, false, ◌==◌, if◌then◌else◌, List, [], ◌∷◌, Option, none, some,
}
use mxtasking.Util.Queue.{null}
use mxtasking.Memory.Fixed
use mxtasking.Memory.Fixed.{ProcessorHeap, CoreHeap, create_core}

-- A processor heap that is not set up is `none`.
pub record Allocator : Type 0 where
  pub processor_heaps : ℕ → Option ProcessorHeap
  pub firsts : ℕ → ℕ
  pub next : ℕ → ℕ

abbrev pub at_index {ℓ} : {A : Type ℓ} → (ℕ → A) → ℕ → A → ℕ → A
at_index f i v j = if i == j then v else f j

module _ (node_id : ℕ → ℕ) (object_size : ℕ) (global : ℕ → ℕ → ℕ) where
  -- The core heap of a core, which points to the processor heap of the core's node.
  unfoldable pub core_heap : Allocator → ℕ → Option CoreHeap
  core_heap a core_id = elim (a.processor_heaps (node_id core_id)) [
    | none ↦ none
    | some p ↦ some (record { processor_heap = p; first = a.firsts core_id; next = a.next })
  ]

  -- The allocator with a core heap as it is after a call.
  unfoldable pub put_back : Allocator → ℕ → CoreHeap → Allocator
  put_back a core_id c = record {
    processor_heaps = at_index a.processor_heaps (node_id core_id) (some c.processor_heap);
    firsts = at_index a.firsts core_id c.first;
    next = c.next;
  }

  -- The first loop of the constructor, for the nodes below `nodes`.
  unfoldable pub create_processors : ℕ → (ℕ → Bool) → ℕ → Option ProcessorHeap
  create_processors zero has_core_of_numa_node n = none
  create_processors (suc nodes) has_core_of_numa_node n =
      if nodes == n
      then (if has_core_of_numa_node n then some (Fixed.create (global n) 0) else none)
      else create_processors nodes has_core_of_numa_node n

  -- The second loop, over the cores of the core set.
  unfoldable pub create_cores : List ℕ → Allocator → Option Allocator
  unfolding put_back
  create_cores [] a = some a
  create_cores (core_id ∷ cores) a = elim (a.processor_heaps (node_id core_id)) [
    | none ↦ none
    | some p ↦ elim (create_core object_size (global (node_id core_id)) p a.next) [
      | none ↦ none
      | some c ↦ create_cores cores (put_back a core_id c)
    ]
  ]

  unfoldable pub create_allocator : ℕ → (ℕ → Bool) → List ℕ → (ℕ → ℕ) → Option Allocator
  unfolding create_processors create_cores
  create_allocator max_node_id has_core_of_numa_node core_set next = create_cores core_set (record {
    processor_heaps = create_processors (suc max_node_id) has_core_of_numa_node;
    firsts = λ _. null;
    next = next;
  })

  unfoldable pub allocate : Allocator → ℕ → Option (ℕ × Allocator)
  unfolding core_heap put_back
  allocate a core_id = elim (core_heap a core_id) [
    | none ↦ none
    | some c ↦ elim (Fixed.allocate object_size (global (node_id core_id)) c) [
      | none ↦ none
      | some (object, c') ↦ some (object, put_back a core_id c')
    ]
  ]

  unfoldable pub free : Allocator → ℕ → ℕ → Option Allocator
  unfolding core_heap put_back
  free a core_id address = elim (core_heap a core_id) [
    | none ↦ none
    | some c ↦ some (put_back a core_id (Fixed.free c address))
  ]
