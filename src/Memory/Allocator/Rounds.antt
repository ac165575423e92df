-- ===== src/Memory/Allocator/Rounds.antt =====
-- The loop of `Allocator::allocate` in mx/memory/dynamic_size_allocator.cpp: how many new blocks it
-- takes.
use native.Mathlib.Nat.{mod-lt}
use mxtasking.Prelude.{
  ℕ, zero, suc, ◌+◌, ◌-◌, ◌%◌, ◌^◌, ◌≤◌, ◌<◌, ◌≡◌, refl, ◌∙◌, List, [], ◌∷◌, ◌++◌, none, some, true,
  false, Bool-cases, Option-cases, inl, inr, ltb, leb, ◌==◌, add64, arith,
}
use mxtasking.Prelude.Bits.{pow_pos}
use mxtasking.Memory.Alignment.{next_multiple}
use mxtasking.Memory.Dynamic
use mxtasking.Memory.Dynamic.{
  AllocationBlock, Allocation, FreeHeader, create, find_block, find_from, cut, header_size,
  aligned_size_including_header,
}
use mxtasking.Memory.Dynamic.Sorted.{IsSeparated}
use mxtasking.Memory.Dynamic.Cut.{find_from-NoneFits}
use mxtasking.Memory.Allocator.{
  Allocator, at_node, emplace_back, add_block, allocate_new_block, back_allocate, size_to_alloc,
  try_allocate, allocate_loop, allocate,
}

at_node_self {ℓ} : {A : Type ℓ} (f : ℕ → A) (n : ℕ) (v : A) → at_node f n v n ≡ v
at_node_self f n v = let e : (n == n) ≡ true = ground arith in rw e

-- A block that is new serves what leaves room for the header and the alignment.
fresh_serves :
    (id numa_node_id size memory k wanted : ℕ)
    → wanted < 2 ^ 47
    → 2 ^ k < 2 ^ 47
    → memory + size < 2 ^ 48
    → wanted + 2 ^ k + 16 ≤ size
    → (a : Allocation) × ((Dynamic.allocate (2 ^ k) wanted (create id numa_node_id size memory)).0
        ≡ some a)
unfolding Dynamic.allocate find_block
fresh_serves id numa_node_id size memory k wanted small aligns bound room =
    let b : AllocationBlock = create id numa_node_id size memory in
    let enough : ltb size wanted ≡ false = ground arith in
    elim (Option-cases (find_block (2 ^ k) wanted b.free_elements)) [
      | inr (f, q) ↦ ((cut b f).0, rw (enough, q))
      | inl q ↦
          let s : IsSeparated 0 b.free_elements = ((omega arith, omega arith, omega arith), tt) in
          let n = find_from-NoneFits k wanted small aligns 0 [] b.free_elements s q in
          absurd (omega (arith, n.0, mod-lt (memory + size - wanted) (pow_pos k)))
    ]

-- A block that is new refuses what does not leave room for the header.
fresh_refuses :
    (id numa_node_id size memory alignment wanted : ℕ)
    → wanted < 2 ^ 47
    → size < wanted + 16
    → (Dynamic.allocate alignment wanted (create id numa_node_id size memory)).0 ≡ none
unfolding Dynamic.allocate find_block find_from
fresh_refuses id numa_node_id size memory alignment wanted small room =
    let no : leb (add64 wanted header_size) size ≡ false = ground arith in
    elim (Bool-cases (ltb size wanted)) [ inl e ↦ rw e | inr e ↦ rw (e, no) ]

-- The last block serves.
back_allocate-append :
    (alignment size : ℕ) (blocks : List AllocationBlock) (b : AllocationBlock)
    → back_allocate alignment size (blocks ++ b ∷ []) ≡ (
      (Dynamic.allocate alignment size b).0,
      blocks ++ (Dynamic.allocate alignment size b).1 ∷ [],
    )
unfolding back_allocate
back_allocate-append alignment size [] b = refl
back_allocate-append alignment size (c ∷ []) b = refl
back_allocate-append alignment size (c ∷ d ∷ blocks) b =
    rw (back_allocate-append alignment size (d ∷ blocks) b)

-- The new block is the last one.
add_block-blocks :
    (global : ℕ → ℕ) (n size : ℕ) (a : Allocator)
    → (add_block global n size a).numa_allocation_blocks n
      ≡ a.numa_allocation_blocks n ++ create (a.next_allocation_id n) n size (global a.calls) ∷ []
unfolding add_block emplace_back
add_block-blocks global n size a = at_node_self a.numa_allocation_blocks n _

add_block-flag :
    (global : ℕ → ℕ) (n size : ℕ) (a : Allocator)
    → (add_block global n size a).numa_allocation_flags n ≡ false
unfolding add_block emplace_back
add_block-flag global n size a = at_node_self (at_node a.numa_allocation_flags n true) n false

add_block-calls :
    (global : ℕ → ℕ) (n size : ℕ) (a : Allocator) → (add_block global n size a).calls ≡ a.calls + 1
unfolding add_block emplace_back
add_block-calls global n size a = refl

-- What an attempt returns, when it is the last block that decides.
try_allocate-last :
    (n alignment size : ℕ) (a : Allocator) (blocks : List AllocationBlock) (b : AllocationBlock)
    → a.numa_allocation_blocks n ≡ blocks ++ b ∷ []
    → (try_allocate n alignment size a).0 ≡ (Dynamic.allocate alignment size b).0
try_allocate-last n alignment size a blocks b e =
    rw (e, back_allocate-append alignment size blocks b)

-- The first new block decides.
allocate_loop-served :
    (global : ℕ → ℕ) (n k size : ℕ) (a : Allocator)
    → a.numa_allocation_flags n ≡ false
    → size < 2 ^ 47
    → 2 ^ k < 2 ^ 47
    → global a.calls + size_to_alloc size < 2 ^ 48
    → size + 2 ^ k + 16 ≤ size_to_alloc size
    → (memory : Allocation) × (a' : Allocator) × (allocate_loop 1 global n (2 ^ k) size a
        ≡ some (memory, a'))
      × (a'.calls ≡ a.calls + 1)
      × (a'.numa_allocation_flags n ≡ false)
unfolding allocate_loop allocate_new_block
allocate_loop-served global n k size a f small aligns bound room =
    let a' = add_block global n (size_to_alloc size) a in
    let (memory, e) =
      fresh_serves (a.next_allocation_id n) n (size_to_alloc size) (global a.calls) k size small
        aligns bound room in
    let t =
      try_allocate-last n (2 ^ k) size a' _ _ (add_block-blocks global n (size_to_alloc size) a)
      ∙ e in
    (
      memory,
      (try_allocate n (2 ^ k) size a').1,
      rw (allocate_loop, allocate_new_block, f, t),
      add_block-calls global n (size_to_alloc size) a,
      add_block-flag global n (size_to_alloc size) a,
    )

-- Each new block refuses.
allocate_loop-refused :
    (fuel : ℕ) (global : ℕ → ℕ) (n alignment size : ℕ) (a : Allocator)
    → a.numa_allocation_flags n ≡ false
    → size < 2 ^ 47
    → size_to_alloc size < size + 16
    → allocate_loop fuel global n alignment size a ≡ none
unfolding allocate_loop allocate_new_block
allocate_loop-refused zero global n alignment size a f small room = refl
allocate_loop-refused (suc fuel) global n alignment size a f small room =
    let a' = add_block global n (size_to_alloc size) a in
    let t =
      try_allocate-last n alignment size a' _ _ (add_block-blocks global n (size_to_alloc size) a)
      ∙ fresh_refuses (a.next_allocation_id n) n (size_to_alloc size) (global a.calls) alignment
          size small room in
    let rest =
      allocate_loop-refused fuel global n alignment size ((try_allocate n alignment size a').1)
        (add_block-flag global n (size_to_alloc size) a) small room in
    rw (allocate_loop, allocate_new_block, f, t, rest)

-- A call at a node whose flag is free, for less than 2 ^ 47 bytes at an alignment 2 ^ k below
-- 2 ^ 47, ends with memory, after at most one new block, and leaves the flag free, when the size,
-- the alignment and 16 bytes fit into a new block, and the new block lies below 2 ^ 48.
pub allocate_ends :
    (global : ℕ → ℕ) (n k size : ℕ) (a : Allocator)
    → a.numa_allocation_flags n ≡ false
    → size < 2 ^ 47
    → 2 ^ k < 2 ^ 47
    → global a.calls + size_to_alloc size < 2 ^ 48
    → size + 2 ^ k + 16 ≤ size_to_alloc size
    → (memory : Allocation) × (a' : Allocator) × (allocate 1 global n (2 ^ k) size a
        ≡ some (memory, a'))
      × (a'.calls ≤ a.calls + 1)
      × (a'.numa_allocation_flags n ≡ false)
unfolding allocate
allocate_ends global n k size a f small aligns bound room =
    let r = try_allocate n (2 ^ k) size a in
    elim (Option-cases r.0) [
      | inr (memory, e) ↦ (memory, r.1, rw (allocate, e), omega arith, f)
      | inl e ↦
          let (memory, a', q, c, g) =
            allocate_loop-served global n k size r.1 f small aligns bound room in
          (memory, a', rw (allocate, e, q), omega (arith, c), g)
    ]

size_to_alloc-exact : (size : ℕ) → 2 ^ 28 ≤ size → size % 64 ≡ 0 → size_to_alloc size ≡ size
unfolding next_multiple
size_to_alloc-exact size l m = ground arith

-- A call at a node whose flag is free and whose last block refuses, for a multiple of 64 bytes from
-- 2 ^ 28 up to 2 ^ 47, has not ended after any number of new blocks, at whatever addresses: a new
-- block has no room for the header.
pub allocate_endless :
    (fuel : ℕ) (global : ℕ → ℕ) (n alignment size : ℕ) (a : Allocator)
    → a.numa_allocation_flags n ≡ false
    → 2 ^ 28 ≤ size
    → size < 2 ^ 47
    → size % 64 ≡ 0
    → (try_allocate n alignment size a).0 ≡ none
    → allocate fuel global n alignment size a ≡ none
unfolding allocate
allocate_endless fuel global n alignment size a f large small m e =
    rw (allocate, e)
      (allocate_loop-refused fuel global n alignment size (try_allocate n alignment size a).1 f
        small (omega (arith, size_to_alloc-exact size large m)))
