-- ===== src/Memory/Dynamic/RoundTrip.antt =====
-- Freeing what was allocated, in mx/memory/dynamic_size_allocator.cpp.
use mathlib.Core.Path.{subst}
use mxtasking.Prelude.{
  ℕ, ◌+◌, ◌-◌, ◌^◌, ◌≤◌, ◌<◌, ◌≡◌, refl, ap, ◌∙◌, List, [], ◌∷◌, true, false, Bool-cases, inl, inr,
  ltb, sub64, arith, none, some, Option-cases,
}
use mxtasking.Memory.Dynamic.{
  FreeHeader, AllocationBlock, Found, onto, find_block, cut, allocate, Allocation, AllocatedHeader,
  borders, merge, contract, insert_free, join_left, free, freed,
}
use mxtasking.Memory.Dynamic.Sorted.{
  IsSeparated, IsBefore, Fits, floor, end_of, lower_bound-split, AllBelow-floor, AllBelow,
  NoneBelow,
}
use mxtasking.Memory.Dynamic.Cut.{IsFound, find_block-IsFound}

-- Two free elements that are equal.
header_eq : (h g : FreeHeader) → h.start ≡ g.start → h.size ≡ g.size → h ≡ g
header_eq h g p q = λ i. record { start = p i; size = q i }

-- Freeing an element between its old neighbours puts it back as it was.
insert_free-gap :
    (lo : ℕ) (f : FreeHeader) (before after : List FreeHeader)
    → IsBefore lo before
    → Fits (floor lo before) f
    → IsSeparated (end_of f + 1) after
    → insert_free f before after ≡ onto before (f ∷ after)
unfolding insert_free join_left
insert_free-gap lo f [] [] b h s = refl
insert_free-gap lo f [] (a ∷ after) b h s = ground arith
insert_free-gap lo f (p ∷ before) [] b h s = ground arith
insert_free-gap lo f (p ∷ before) (a ∷ after) b h s = ground arith

-- Freeing the end of an element, of which only the front was left, merges the two.
insert_free-end :
    (lo : ℕ) (h f : FreeHeader) (before after : List FreeHeader)
    → 0 < h.size
    → 0 < f.size
    → end_of h ≡ f.start
    → end_of f < 2 ^ 48
    → IsSeparated (end_of f + 1) after
    → insert_free f (h ∷ before) after
      ≡ onto before (record { start = h.start; size = h.size + f.size } ∷ after)
unfolding insert_free join_left
insert_free-end lo h f before [] ph pf e l s =
    let b : borders h f ≡ true = ground arith in
    let m : merge h f ≡ record { start = h.start; size = h.size + f.size } = ground arith in
    rw (b, m)
insert_free-end lo h f before (a ∷ after) ph pf e l s =
    let n : borders f a ≡ false = ground arith in
    let b : borders h f ≡ true = ground arith in
    let m : merge h f ≡ record { start = h.start; size = h.size + f.size } = ground arith in
    rw (n, b, m)

NoneBelow-after :
    (x lo : ℕ) (after : List FreeHeader) → x ≤ lo → IsSeparated lo after → NoneBelow x after
NoneBelow-after x lo [] h s = tt
NoneBelow-after x lo (a ∷ after) h s = omega (arith, s.0)

-- `free` at the iterator where the freed element belongs.
pub free-at :
    (x : ℕ) (header : AllocatedHeader) (b : AllocationBlock) (before after : List FreeHeader)
    (f : FreeHeader)
    → freed x header ≡ f
    → b.free_elements ≡ onto before after
    → AllBelow f.start before
    → NoneBelow f.start after
    → (free x header b).free_elements ≡ insert_free f before after
unfolding free
free-at x header b before after f e w l n =
    rw (e, w, ap (λ (g : FreeHeader). g.start) e, lower_bound-split f.start before after l n)

module _ (k size : ℕ) (small : size < 2 ^ 47) (aligns : 2 ^ k < 2 ^ 47) where
  module _ (b : AllocationBlock) (f : Found)
      (found : IsFound k size small aligns 0 b.free_elements f) where
    abbrev h : FreeHeader
    h = f.element

    abbrev fits : Fits (floor 0 f.before) f.element
    fits = found.after.0

    pub freed-contracted :
        ltb 255 (sub64 h.size f.aligned_size) ≡ true
        → freed (cut b f).0.header_address (cut b f).0.header
          ≡ record { start = end_of h - f.aligned_size; size = f.aligned_size }
    unfolding cut
    freed-contracted e = rw e (
        header_eq _ _ (omega (arith, fits, found.is_cut.enough, found.is_cut.inside))
          (omega (arith, fits, found.is_cut.enough, found.is_cut.inside)))

    pub freed-whole :
        ltb 255 (sub64 h.size f.aligned_size) ≡ false
        → freed (cut b f).0.header_address (cut b f).0.header ≡ h
    unfolding cut
    freed-whole e =
        let r : sub64 h.size f.aligned_size < 256 = ground arith in
        rw e (
          header_eq _ _ (omega (arith, fits, found.is_cut.enough, found.is_cut.inside))
            (omega (arith, fits, found.is_cut.enough, found.is_cut.inside)))

    pub elements-contracted :
        ltb 255 (sub64 h.size f.aligned_size) ≡ true
        → (cut b f).1.free_elements ≡ onto f.before (contract h f.aligned_size ∷ f.after)
    unfolding cut
    elements-contracted e = rw e

    pub elements-whole :
        ltb 255 (sub64 h.size f.aligned_size) ≡ false
        → (cut b f).1.free_elements ≡ onto f.before f.after
    unfolding cut
    elements-whole e = rw e

    free-cut :
        (free (cut b f).0.header_address (cut b f).0.header (cut b f).1).free_elements
        ≡ b.free_elements
    free-cut = elim (Bool-cases (ltb 255 (sub64 h.size f.aligned_size))) [
      | inl e ↦
          let left : 255 < h.size - f.aligned_size = ground (arith, fits, found.is_cut.inside) in
          let front : FreeHeader = contract h f.aligned_size in
          free-at _ _ (cut b f).1 (front ∷ f.before) f.after _ (freed-contracted e)
            (elements-contracted e)
            (omega arith, AllBelow-floor 0 _ f.before found.before (omega (arith, fits)))
            (NoneBelow-after _ (end_of h + 1) f.after (omega arith) found.after.1)
          ∙ insert_free-end 0 front _ f.before f.after (omega (arith, fits))
              (omega (arith, found.is_cut.enough)) (omega (arith, fits))
              (omega (arith, fits, found.is_cut.inside))
              (subst (λ x. IsSeparated (x + 1) f.after) (omega (arith, fits, found.is_cut.inside))
                found.after.1)
          ∙ ap (λ g. onto f.before (g ∷ f.after)) (header_eq _ h refl (omega (arith, fits)))
          ∙ found.whole
      | inr e ↦
          free-at _ _ (cut b f).1 f.before f.after h (freed-whole e) (elements-whole e)
            (AllBelow-floor 0 h.start f.before found.before fits.0)
            (NoneBelow-after h.start (end_of h + 1) f.after (omega arith) found.after.1)
          ∙ insert_free-gap 0 h f.before f.after found.before fits found.after.1
          ∙ found.whole
    ]

  pub allocate_cases :
      (b : AllocationBlock) {a : Allocation}
      → (allocate (2 ^ k) size b).0 ≡ some a
      → (f : Found) × (find_block (2 ^ k) size b.free_elements ≡ some f)
        × (allocate (2 ^ k) size b ≡ (some (cut b f).0, (cut b f).1))
        × ((cut b f).0 ≡ a)
  unfolding allocate
  allocate_cases b {a} e = elim (Bool-cases (ltb b.available_size size)) [
    | inl t ↦ absurd (let n : none ≡ some a = rw t at e in cc)
    | inr t ↦ elim (Option-cases (find_block (2 ^ k) size b.free_elements)) [
      | inl q ↦ absurd (let n : none ≡ some a = rw (t, q) at e in cc)
      | inr (f, q) ↦ let n : some (cut b f).0 ≡ some a = rw (t, q) at e in (f, q, rw (t, q), cc)
    ]
  ]

  -- A block with separated free elements, of which an allocation of less than 2 ^ 47 bytes at an
  -- alignment 2 ^ k below 2 ^ 47 succeeds, has after the memory is freed again exactly the free
  -- elements that it had before.
  pub free-allocate :
      (b : AllocationBlock) {a : Allocation}
      → IsSeparated 0 b.free_elements
      → (allocate (2 ^ k) size b).0 ≡ some a
      → (free a.header_address a.header (allocate (2 ^ k) size b).1).free_elements ≡ b.free_elements
  free-allocate b {a} s e =
      let (f, q, r, same_a) = allocate_cases b e in
      subst
        (λ c.
          (free c.header_address c.header (allocate (2 ^ k) size b).1).free_elements
          ≡ b.free_elements)
        same_a (rw r (free-cut b f (find_block-IsFound k size small aligns b.free_elements s q)))
