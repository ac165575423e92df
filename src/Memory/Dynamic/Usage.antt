-- ===== src/Memory/Dynamic/Usage.antt =====
-- A block of mx/memory/dynamic_size_allocator.cpp over any sequence of calls, with the allocations
-- that have not been freed.
use mathlib.Core.Path.{subst}
use mxtasking.Prelude.{
  ℕ, ◌+◌, ◌-◌, ◌^◌, ◌<◌, ◌≡◌, refl, sym, ap, ◌∙◌, List, [], ◌∷◌, Bool-cases, inl, inr, ltb, sub64,
  arith, none, some, Option-cases,
}
use mxtasking.Memory.Dynamic.{
  FreeHeader, AllocationBlock, Allocation, Found, contract, create, allocate, free, freed,
  find_block, cut,
}
use mxtasking.Memory.Dynamic.Sorted.{IsSeparated, Fits, floor, end_of}
use mxtasking.Memory.Dynamic.Cut.{IsFound, find_block-IsFound}
use mxtasking.Memory.Dynamic.RoundTrip.{
  allocate_cases, freed-contracted, freed-whole, elements-contracted, elements-whole,
}
use mxtasking.Memory.Dynamic.Separate.{drop-IsSeparated, shrink-IsSeparated}
use mxtasking.Memory.Dynamic.Owners.{covers, owners, owners-onto, covers-joined}

-- The memory of an allocation, with its header and what is unused before it.
abbrev pub region : Allocation → FreeHeader
region a = freed a.header_address a.header

abbrev pub regions : List Allocation → List FreeHeader
regions [] = []
regions (a ∷ live) = region a ∷ regions live

-- One allocation is taken out of a list.
pub data Takes (a : Allocation) : List Allocation → List Allocation → Type 0 where
  first : {rest : List Allocation} → Takes a (a ∷ rest) rest
  later :
      {c : Allocation} {live rest : List Allocation}
      → Takes a live rest
      → Takes a (c ∷ live) (c ∷ rest)

-- The states of a block, and the allocations that are not freed yet, over the calls.
pub data Reaches (id numa_node_id size memory : ℕ)
    : AllocationBlock → List Allocation → Type 0 where
  created : Reaches id numa_node_id size memory (create id numa_node_id size memory) []
  allocates :
      {b : AllocationBlock} {live : List Allocation} {a : Allocation} (k wanted : ℕ)
      → wanted < 2 ^ 47
      → 2 ^ k < 2 ^ 47
      → Reaches id numa_node_id size memory b live
      → (allocate (2 ^ k) wanted b).0 ≡ some a
      → Reaches id numa_node_id size memory (allocate (2 ^ k) wanted b).1 (a ∷ live)
  refused :
      {b : AllocationBlock} {live : List Allocation} (alignment wanted : ℕ)
      → Reaches id numa_node_id size memory b live
      → (allocate alignment wanted b).0 ≡ none
      → Reaches id numa_node_id size memory (allocate alignment wanted b).1 live
  frees :
      {b : AllocationBlock} {live rest : List Allocation} {a : Allocation}
      → Reaches id numa_node_id size memory b live
      → Takes a live rest
      → Reaches id numa_node_id size memory (free a.header_address a.header b) rest

-- All regions are not empty, and lie below the 48 bits of an address.
abbrev pub AllFit : List FreeHeader → Type 0
AllFit [] = Unit {0}
AllFit (f ∷ fs) = Fits 0 f × AllFit fs

-- What a step of `allocate` takes from the free elements.
pub record IsTaken (b : AllocationBlock) (a : Allocation) (b' : AllocationBlock) : Type 0 where
  pub separated : IsSeparated 0 b'.free_elements
  pub fits : Fits 0 (region a)
  pub owned : (x : ℕ) → owners x b.free_elements ≡ owners x b'.free_elements + covers x (region a)

module _ (k wanted : ℕ) (small : wanted < 2 ^ 47) (aligns : 2 ^ k < 2 ^ 47) where
  module _ (b : AllocationBlock) (f : Found)
      (found : IsFound k wanted small aligns 0 b.free_elements f) where
    abbrev h : FreeHeader
    h = f.element

    abbrev fit : Fits (floor 0 f.before) f.element
    fit = found.after.0

    owners-found :
        (x : ℕ) → owners x b.free_elements ≡ owners x f.before + (covers x h + owners x f.after)
    owners-found x = ap (owners x) (sym found.whole) ∙ owners-onto x f.before (h ∷ f.after)

    cut-IsTaken : IsTaken b (cut b f).0 (cut b f).1
    cut-IsTaken = elim (Bool-cases (ltb 255 (sub64 h.size f.aligned_size))) [
      | inl e ↦
          let left : 255 < h.size - f.aligned_size = ground (arith, fit, found.is_cut.inside) in
          let front : FreeHeader = contract h f.aligned_size in
          let size : front.size ≡ h.size - f.aligned_size = omega (arith, fit, left) in
          let r = freed-contracted k wanted small aligns b f found e in
          let es = elements-contracted k wanted small aligns b f found e in
          record {
            separated = subst (IsSeparated 0) (sym es) (
                shrink-IsSeparated 0 h front f.before f.after found.before found.after refl
                  (omega (arith, size, left)) (omega (arith, size)));
            fits = subst (Fits 0) (sym r) (
              omega arith,
              omega (arith, found.is_cut.enough),
              omega (arith, fit, found.is_cut.inside),
            );
            owned = λ x.
                rw (es, r)
                  (omega (
                    arith,
                    owners-found x,
                    owners-onto x f.before (front ∷ f.after),
                    covers-joined x front
                        (record { start = end_of h - f.aligned_size; size = f.aligned_size }) h
                        (omega (arith, size, left)) refl (omega (arith, size, left)),
                  ));
          }
      | inr e ↦
          let r = freed-whole k wanted small aligns b f found e in
          let es = elements-whole k wanted small aligns b f found e in
          record {
            separated =
                subst (IsSeparated 0) (sym es)
                  (drop-IsSeparated 0 h f.before f.after found.before found.after);
            fits = subst (Fits 0) (sym r) (omega arith, fit.1, fit.2);
            owned = λ x. rw (es, r) (omega (arith, owners-found x, owners-onto x f.before f.after));
          }
    ]

  -- A successful `allocate` takes the region of its allocation from the free elements.
  pub allocate-IsTaken :
      (b : AllocationBlock) {a : Allocation}
      → IsSeparated 0 b.free_elements
      → (allocate (2 ^ k) wanted b).0 ≡ some a
      → IsTaken b a (allocate (2 ^ k) wanted b).1
  allocate-IsTaken b {a} s e =
      let (f, q, r, same_a) = allocate_cases k wanted small aligns b e in
      let found = find_block-IsFound k wanted small aligns b.free_elements s q in
      rw r (subst (λ c. IsTaken b c (cut b f).1) same_a (cut-IsTaken b f found))

-- An `allocate` that fails changes nothing.
pub allocate-none :
    (alignment wanted : ℕ) (b : AllocationBlock)
    → (allocate alignment wanted b).0 ≡ none
    → (allocate alignment wanted b).1 ≡ b
unfolding allocate
allocate-none alignment wanted b e = elim (Bool-cases (ltb b.available_size wanted)) [
  | inl t ↦ rw t
  | inr t ↦ elim (Option-cases (find_block alignment wanted b.free_elements)) [
    | inl q ↦ rw (t, q)
    | inr (f, q) ↦ absurd (let n : some (cut b f).0 ≡ none = rw (t, q) at e in cc)
  ]
]
