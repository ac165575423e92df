-- ===== src/Memory/Dynamic/Exclusive.antt =====
-- The memory that `allocate` of mx/memory/dynamic_size_allocator.cpp returns: as it was asked for,
-- and owned by nobody else.
use mathlib.Core.Path.{subst}
use mxtasking.Prelude.{
  ℕ, ◌+◌, ◌-◌, ◌%◌, ◌^◌, ◌≤◌, ◌<◌, ◌≡◌, List, arith, some, Bool-cases, inl, inr, ltb, sub64, ap,
  ◌∙◌,
}
use mxtasking.Memory.Dynamic.{FreeHeader, AllocationBlock, Allocation, Found, allocate, cut}
use mxtasking.Memory.Dynamic.Sorted.{IsSeparated, Fits, floor, end_of}
use mxtasking.Memory.Dynamic.Cut.{IsCut, IsFound, find_block-IsFound}
use mxtasking.Memory.Dynamic.RoundTrip.{allocate_cases, freed-contracted, freed-whole}
use mxtasking.Memory.Dynamic.Owners.{covers, owners, covers-inside, covers-bounds, covers-le}
use mxtasking.Memory.Dynamic.Usage.{region, regions, Reaches, allocate-IsTaken}
use mxtasking.Memory.Dynamic.Sharing.{Reaches-IsShared}

module _ (k wanted : ℕ) (small : wanted < 2 ^ 47) (aligns : 2 ^ k < 2 ^ 47) where
  -- An allocation as it was asked for, inside its region.
  record IsServed (a : Allocation) : Type 0 where
    multiple : a.address % 2 ^ k ≡ 0
    behind_header : a.address ≡ a.header_address + 16
    begins : (region a).start ≤ a.header_address
    ends : a.address + wanted ≤ end_of (region a)

  cut-IsServed :
      (b : AllocationBlock) (f : Found)
      → IsFound k wanted small aligns 0 b.free_elements f
      → IsServed (cut b f).0
  unfolding cut
  cut-IsServed b f found =
      let h : FreeHeader = f.element in
      let fit : Fits (floor 0 f.before) h = found.after.0 in
      let c : IsCut k wanted small aligns h f.aligned_size = found.is_cut in
      let head : (cut b f).0.header_address ≡ end_of h - f.aligned_size =
        omega (arith, fit, c.enough, c.inside) in
      let address : (cut b f).0.address ≡ end_of h - f.aligned_size + 16 =
        omega (arith, fit, c.enough, c.inside) in
      elim (Bool-cases (ltb 255 (sub64 h.size f.aligned_size))) [
        | inl e ↦
            let r = freed-contracted k wanted small aligns b f found e in
            let s = ap (λ (g : FreeHeader). g.start) r in
            let z = ap end_of r in
            record {
              multiple = ap (λ (n : ℕ). n % 2 ^ k) address ∙ c.multiple;
              behind_header = omega (arith, head, address);
              begins = omega (arith, head, s);
              ends = omega (arith, address, z, fit, c.enough, c.inside);
            }
        | inr e ↦
            let r = freed-whole k wanted small aligns b f found e in
            let s = ap (λ (g : FreeHeader). g.start) r in
            let z = ap end_of r in
            record {
              multiple = ap (λ (n : ℕ). n % 2 ^ k) address ∙ c.multiple;
              behind_header = omega (arith, head, address);
              begins = omega (arith, head, s, fit, c.inside);
              ends = omega (arith, address, z, fit, c.enough, c.inside);
            }
      ]

  allocate-IsServed :
      (b : AllocationBlock) {a : Allocation}
      → IsSeparated 0 b.free_elements
      → (allocate (2 ^ k) wanted b).0 ≡ some a
      → IsServed a
  allocate-IsServed b {a} s e =
      let (f, q, r, same_a) = allocate_cases k wanted small aligns b e in
      subst IsServed same_a
        (cut-IsServed b f (find_block-IsFound k wanted small aligns b.free_elements s q))

module _ (id numa_node_id size memory : ℕ) (some_bytes : 0 < size)
    (addressed : memory + size < 2 ^ 48) where
  -- After any sequence of calls, the free elements of a block are sorted, with a gap between any
  -- two, and an address belongs to exactly one free element or allocation that is not freed when
  -- it lies in the memory of the block, and to none otherwise.
  pub block_owners :
      (b : AllocationBlock) (live : List Allocation)
      → Reaches id numa_node_id size memory b live
      → (x : ℕ)
      → IsSeparated 0 b.free_elements
        × (owners x b.free_elements + owners x (regions live)
            ≡ covers x (record { start = memory; size = size }))
  block_owners b live r x =
      let s = Reaches-IsShared id numa_node_id size memory some_bytes addressed r in
      (s.separated, s.owned x)

  -- After any sequence of calls, an allocation of less than 2 ^ 47 bytes at an alignment 2 ^ k
  -- below 2 ^ 47 that succeeds returns a multiple of the alignment, 16 bytes behind its header.
  -- Each address of the header and the bytes that were asked for lies in the memory of the block,
  -- and belongs to no other allocation that is not freed, and to no free element any more.
  pub allocated_alone :
      (b : AllocationBlock) (live : List Allocation) (k wanted : ℕ) (a : Allocation)
      → Reaches id numa_node_id size memory b live
      → wanted < 2 ^ 47
      → 2 ^ k < 2 ^ 47
      → (allocate (2 ^ k) wanted b).0 ≡ some a
      → (x : ℕ) → a.header_address ≤ x
      → x < a.address + wanted
      → (a.address % 2 ^ k ≡ 0)
        × (a.address ≡ a.header_address + 16)
        × (memory ≤ x)
        × (x < memory + size)
        × (owners x (regions live) ≡ 0)
        × (owners x (allocate (2 ^ k) wanted b).1.free_elements ≡ 0)
  allocated_alone b live k wanted a r small aligns e x l h =
      let s = Reaches-IsShared id numa_node_id size memory some_bytes addressed r in
      let v = allocate-IsServed k wanted small aligns b s.separated e in
      let t = allocate-IsTaken k wanted small aligns b s.separated e in
      let whole : FreeHeader = record { start = memory; size = size } in
      let mine = covers-inside x (region a) (omega (arith, v.begins)) (omega (arith, v.ends)) in
      let (from, to) = covers-bounds x whole (omega (arith, s.owned x, t.owned x, mine)) in
      (
        v.multiple,
        v.behind_header,
        from,
        to,
        omega (arith, s.owned x, t.owned x, mine, covers-le x whole),
        omega (arith, s.owned x, t.owned x, mine, covers-le x whole),
      )
