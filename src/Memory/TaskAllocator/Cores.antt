-- ===== src/Memory/TaskAllocator/Cores.antt =====
-- A task that is freed on a core of mx/memory/fixed_size_allocator.h is what the core allocates next,
-- whichever core it came from.
use mxtasking.Prelude.{ℕ, ◌<◌, ◌≡◌, ◌∙◌, false, ◌==◌, some, arith}
use mxtasking.Util.Queue.{null, write}
use mxtasking.Memory.Fixed
use mxtasking.Memory.Fixed.{ProcessorHeap, CoreHeap}
use mxtasking.Memory.TaskAllocator.{Allocator, at_index, core_heap, put_back, allocate, free}

at_index_self {ℓ} : {A : Type ℓ} (f : ℕ → A) (i : ℕ) (v : A) → at_index f i v i ≡ v
at_index_self f i v = ground arith

written : (next : ℕ → ℕ) (p first : ℕ) → write next p first p ≡ first
written next p first = ground arith

module _ (node_id : ℕ → ℕ) (object_size : ℕ) (global : ℕ → ℕ → ℕ) (core_id address : ℕ)
    (some_address : 0 < address) (a : Allocator) (p : ProcessorHeap)
    (set_up : a.processor_heaps (node_id core_id) ≡ some p) where
  abbrev heap : CoreHeap
  heap = record { processor_heap = p; first = a.firsts core_id; next = a.next }

  abbrev freed : Allocator
  freed = put_back node_id object_size global a core_id (Fixed.free heap address)

  abbrev again : Allocator
  again =
      put_back node_id object_size global freed core_id
        (Fixed.take_first
          (record heap { first = address; next = write a.next address (a.firsts core_id) })).1

  free-freed : free node_id object_size global a core_id address ≡ some freed
  unfolding free core_heap
  free-freed = rw (free, core_heap, set_up)

  allocate-freed : allocate node_id object_size global freed core_id ≡ some (address, again)
  unfolding allocate core_heap put_back Fixed.allocate Fixed.free
  allocate-freed =
      let used : (address == null) ≡ false = ground arith in
      rw (
        allocate,
        core_heap,
        put_back,
        at_index_self a.processor_heaps (node_id core_id) (some p),
        at_index_self a.firsts core_id address,
        used,
      )

  pub allocate-free :
      (b c : Allocator) × (free node_id object_size global a core_id address ≡ some b)
      × (allocate node_id object_size global b core_id ≡ some (address, c))
      × (c.firsts core_id ≡ a.firsts core_id)
  unfolding put_back
  allocate-free = (
    freed,
    again,
    free-freed,
    allocate-freed,
    at_index_self freed.firsts core_id _ ∙ written a.next address (a.firsts core_id),
  )
