-- ===== src/Memory/Fixed/Runs.antt =====
-- A core heap of mx/memory/fixed_size_allocator.h is a stack of free objects, to which a chunk is
-- added when it is empty.
use mxtasking.Prelude.{ℕ, ◌+◌, ◌≤◌, ◌<◌, ◌≡◌, ◌≢◌, refl, List, [], ◌∷◌, some, length, ◌*◌, arith}
use mxtasking.Util.Queue.{null}
use mxtasking.Util.Queue.Chain.{NotIn}
use mxtasking.Memory.Fixed.{
  chunk_size, CoreHeap, free, Op, allocates, frees, run, create, create_core,
}
use mxtasking.Memory.Fixed.Chunks.{IsHeap, create-HasServed}
use mxtasking.Memory.Fixed.Objects.{
  HasFree, chunk_objects, chunk_objects-cons, allocate-cons, allocate-nil, free-HasFree,
  fill_core-HasFree,
}

-- The specification: what the calls allocate from a stack, where the k-th refill brings `supply k`.
unfoldable pub stack_run : (ℕ → List ℕ) → ℕ → List ℕ → List Op → List ℕ
stack_run supply k xs [] = []
stack_run supply k xs (frees p ∷ ops) = stack_run supply k (p ∷ xs) ops
stack_run supply k (x ∷ xs) (allocates ∷ ops) = x ∷ stack_run supply k xs ops
stack_run supply k [] (allocates ∷ ops) = elim (supply k) [
  | [] ↦ []
  | x ∷ xs ↦ x ∷ stack_run supply (k + 1) xs ops
]

-- Only an object that is not free is freed.
abbrev pub IsLegal : (ℕ → List ℕ) → ℕ → List ℕ → List Op → Type 0
IsLegal supply k xs [] = Unit {0}
IsLegal supply k xs (frees p ∷ ops) = (p ≢ null) × NotIn p xs × IsLegal supply k (p ∷ xs) ops
IsLegal supply k (x ∷ xs) (allocates ∷ ops) = IsLegal supply k xs ops
IsLegal supply k [] (allocates ∷ ops) = elim (supply k) [
  | [] ↦ Unit {0}
  | x ∷ xs ↦ IsLegal supply (k + 1) xs ops
]

module _ (object_size : ℕ) (global : ℕ → ℕ) (base rounds : ℕ) (h : IsHeap global base rounds)
    (pos : 0 < object_size) (small : object_size ≤ chunk_size) where
  run-HasFree :
      (ops : List Op) (k : ℕ) (c : CoreHeap) (xs : List ℕ)
      → k + length ops ≤ 128 * rounds
      → HasFree global base k c xs
      → IsLegal (chunk_objects global base object_size) k xs ops
      → (c' : CoreHeap) × (run object_size global c ops
          ≡ some (stack_run (chunk_objects global base object_size) k xs ops, c'))
  unfolding run stack_run
  run-HasFree [] k c xs few held legal = (c, refl)
  run-HasFree (frees p ∷ ops) k c xs few held legal =
      run-HasFree ops k (free c p) (p ∷ xs) (omega arith)
        (free-HasFree global base k c p xs legal.0 legal.1 held) legal.2
  run-HasFree (allocates ∷ ops) k c (x ∷ xs) few held legal =
      let (c1, e, held') = allocate-cons object_size global base k c x xs held in
      let (c2, rest) = run-HasFree ops k c1 xs (omega arith) held' legal in
      (c2, rw (e, rest, run) refl)
  run-HasFree (allocates ∷ ops) k c [] few held legal =
      let (x, xs, supply) = chunk_objects-cons global base object_size k pos small in
      let (c1, e, held') =
        allocate-nil object_size global base rounds k c x xs h (omega arith) pos small held
          supply in
      let legal' : IsLegal (chunk_objects global base object_size) (k + 1) xs ops =
        rw (supply, IsLegal) at legal in
      let (c2, rest) = run-HasFree ops (k + 1) c1 xs (omega arith) held' legal' in
      (c2, rw (e, rest, run, supply, stack_run) refl)

-- A new core heap on a new processor heap behaves like a stack, for any calls that free no free
-- object, which holds the objects of a chunk first: an allocation takes what was freed last, and
-- from an empty stack the first object of the next chunk. It always ends. The regions that
-- the global heap returns are not null, do not wrap around or overlap, and have chunks enough for
-- the calls; an object is at most as large as a chunk.
pub core_run_refines :
    (object_size : ℕ) (global : ℕ → ℕ) (base rounds : ℕ) (next : ℕ → ℕ) (ops : List Op)
    → IsHeap global base rounds
    → 1 + length ops ≤ 128 * rounds
    → 0 < object_size
    → object_size ≤ chunk_size
    → IsLegal
        (chunk_objects global base object_size)
        1
        (chunk_objects global base object_size 0)
        ops
    → (c c' : CoreHeap) × (create_core object_size global (create global base) next ≡ some c)
      × (run object_size global c ops
          ≡ some (
            stack_run
                (chunk_objects global base object_size)
                1
                (chunk_objects global base object_size 0)
                ops,
            c',
          ))
unfolding create_core
core_run_refines object_size global base rounds next ops h few pos small legal =
    let unfilled : CoreHeap = record {
      processor_heap = create global base;
      first = null;
      next = next;
    } in
    let (c, e, held) =
      fill_core-HasFree object_size global base rounds 0 unfilled [] h (omega arith) pos small
        (record { served = create-HasServed global base; chain = refl; nodup = tt }) in
    let (c', e') =
      run-HasFree object_size global base rounds h pos small ops 1 c
        (chunk_objects global base object_size 0) few held legal in
    (c, c', e, e')
