-- ===== src/Memory/Fixed.antt =====
-- mx/memory/fixed_size_allocator.h: objects of one size. A processor heap hands out chunks of 16 MB
-- from a buffer of 128, and a core heap cuts a chunk into a list of free objects, whose `_next`
-- fields are the store `next`. The address that the n-th call of the global heap returns is
-- `global n`. The calls on one processor heap run one after the other; `none` is a call that still
-- waits.
pub mod Chunks
pub mod Links
pub mod Objects
pub mod Runs
use mxtasking.Prelude.{
  ℕ, zero, suc, ◌+◌, ◌-◌, ◌*◌, ◌/◌, ◌%◌, ◌^◌, Bool, true, false, ltb, ◌==◌, if◌then◌else◌, List, [],
  ◌∷◌, ◌++◌, Option, none, some, add64,
}
use mxtasking.Util.Queue.{null, write}

pub record Chunk : Type 0 where
  pub memory : ℕ
  pub is_allocated : Bool

-- `Chunk::size()`
abbrev pub chunk_size : ℕ
chunk_size = 4096 * 4096

abbrev pub chunks : ℕ
chunks = 128

pub record ProcessorHeap : Type 0 where
  pub free_chunk_buffer : ℕ → Chunk
  pub next_free_chunk : ℕ
  pub fill_buffer_flag : Bool
  pub allocated_chunks : List Chunk
  pub calls : ℕ

-- The chunks that the first loop of `fill_buffer<false>` remembers, for the `left` slots from `i`.
unfoldable pub buffered : (ℕ → Chunk) → ℕ → ℕ → List Chunk
buffered buffer zero i = []
buffered buffer (suc left) i = buffer i ∷ buffered buffer left (i + 1)

-- The loop that cuts the memory into chunks: the chunk in slot `i`.
abbrev pub cut : ℕ → ℕ → Chunk
cut heap_memory_address i = record {
  memory = add64 heap_memory_address (i * chunk_size);
  is_allocated = i == 0;
}

unfoldable pub fill_buffer : Bool → (ℕ → ℕ) → ProcessorHeap → ProcessorHeap
unfolding buffered
fill_buffer is_first global p = record p {
  allocated_chunks =
      if is_first
      then p.allocated_chunks
      else p.allocated_chunks ++ buffered p.free_chunk_buffer chunks 0;
  free_chunk_buffer = λ i. if ltb i chunks then cut (global p.calls) i else p.free_chunk_buffer i;
  next_free_chunk = 0;
  calls = p.calls + 1;
}

-- `ProcessorHeap(numa_node_id)`, when the global heap has been called `calls` times.
unfoldable pub create : (ℕ → ℕ) → ℕ → ProcessorHeap
create global calls = fill_buffer true global (record {
  free_chunk_buffer = λ _. record { memory = null; is_allocated = true };
  next_free_chunk = 0;
  fill_buffer_flag = false;
  allocated_chunks = [];
  calls = calls;
})

-- `ProcessorHeap::allocate`, which calls itself behind a refill; the index has 8 bits.
unfoldable pub allocate_chunk : ℕ → (ℕ → ℕ) → ProcessorHeap → Option (Chunk × ProcessorHeap)
allocate_chunk zero global p = none
allocate_chunk (suc fuel) global p =
    let next_free_chunk = p.next_free_chunk in
    let taken = record p { next_free_chunk = (next_free_chunk + 1) % 2 ^ 8 } in
    let refilled = record (fill_buffer false global (record taken { fill_buffer_flag = true })) {
      fill_buffer_flag = false;
    } in
    let rest = allocate_chunk fuel global refilled in
    if ltb next_free_chunk chunks
    then some (p.free_chunk_buffer next_free_chunk, taken)
    else (if p.fill_buffer_flag then none else rest)

-- A core heap with its processor heap and the free objects' memory.
pub record CoreHeap : Type 0 where
  pub processor_heap : ProcessorHeap
  pub first : ℕ
  pub next : ℕ → ℕ

-- The loop of `CoreHeap::fill_buffer`, for the `left` objects from the `i`-th on.
unfoldable pub link : ℕ → ℕ → ℕ → ℕ → ℕ → (ℕ → ℕ) → ℕ → ℕ
link chunk_address object_size zero i current_free next = next
link chunk_address object_size (suc left) i current_free next =
    let following = add64 chunk_address ((i + 1) * object_size) in
    link chunk_address object_size left (i + 1) following (write next current_free following)

unfoldable pub fill_core : ℕ → (ℕ → ℕ) → CoreHeap → Option CoreHeap
unfolding link allocate_chunk
fill_core object_size global c = elim (allocate_chunk 2 global c.processor_heap) [
  | none ↦ none
  | some (chunk, processor_heap) ↦
      let chunk_address = chunk.memory in
      let count_objects = chunk_size / object_size in
      let last_free = add64 chunk_address ((count_objects - 1) * object_size) in
      let linked = link chunk_address object_size (count_objects - 1) 0 chunk_address c.next in
      some (record {
        processor_heap = processor_heap;
        first = chunk_address;
        next = write linked last_free null;
      })
]

-- `CoreHeap(processor_heap)`
unfoldable pub create_core : ℕ → (ℕ → ℕ) → ProcessorHeap → (ℕ → ℕ) → Option CoreHeap
create_core object_size global processor_heap next =
    fill_core object_size global
      (record { processor_heap = processor_heap; first = null; next = next })

-- `std::exchange(_first, _first->next())`
abbrev pub take_first : CoreHeap → ℕ × CoreHeap
take_first c = (c.first, record c { first = c.next c.first })

unfoldable pub allocate : ℕ → (ℕ → ℕ) → CoreHeap → Option (ℕ × CoreHeap)
unfolding fill_core
allocate object_size global c =
    if c.first == null
    then elim (fill_core object_size global c) [ none ↦ none | some c' ↦ some (take_first c') ]
    else some (take_first c)

unfoldable pub free : CoreHeap → ℕ → CoreHeap
free c pointer = record c { next = write c.next pointer c.first; first = pointer }

-- `n` calls of `ProcessorHeap::allocate`: the addresses of the chunks.
unfoldable pub draw : ℕ → (ℕ → ℕ) → ProcessorHeap → Option (List ℕ × ProcessorHeap)
unfolding allocate_chunk
draw zero global p = some ([], p)
draw (suc n) global p = elim (allocate_chunk 2 global p) [
  | none ↦ none
  | some (chunk, p') ↦ elim (draw n global p') [
    | none ↦ none
    | some (addresses, p'') ↦ some (chunk.memory ∷ addresses, p'')
  ]
]

-- Calls of a core heap.
pub data Op : Type 0 where
  allocates : Op
  frees : ℕ → Op

-- The objects that the calls allocate, in order, and the heap after them.
unfoldable pub run : ℕ → (ℕ → ℕ) → CoreHeap → List Op → Option (List ℕ × CoreHeap)
unfolding allocate free
run object_size global c [] = some ([], c)
run object_size global c (frees p ∷ ops) = run object_size global (free c p) ops
run object_size global c (allocates ∷ ops) = elim (allocate object_size global c) [
  | none ↦ none
  | some (x, c') ↦ elim (run object_size global c' ops) [
    | none ↦ none
    | some (xs, c'') ↦ some (x ∷ xs, c'')
  ]
]
