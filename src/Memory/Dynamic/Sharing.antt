-- ===== src/Memory/Dynamic/Sharing.antt =====
-- Who owns an address of a block of mx/memory/dynamic_size_allocator.cpp: one free element or one
-- allocation, after any sequence of calls.
use mathlib.Core.Path.{subst}
use mxtasking.Prelude.{ℕ, ◌+◌, ◌^◌, ◌≤◌, ◌<◌, ◌≡◌, refl, sym, ap, ◌∙◌, List, [], ◌∷◌, arith, dec_lt}
use mxtasking.Memory.Dynamic.{
  FreeHeader, AllocationBlock, Allocation, onto, free, lower_bound, insert_free,
}
use mxtasking.Memory.Dynamic.Sorted.{
  IsSeparated, Fits, floor, end_of, AllBelow, NoneBelow, Bound, lower_bound-Bound,
}
use mxtasking.Memory.Dynamic.RoundTrip.{free-at}
use mxtasking.Memory.Dynamic.Separate.{Behind, Ahead}
use mxtasking.Memory.Dynamic.Owners.{covers, owners, owners-onto, covers-inside, covers-le}
use mxtasking.Memory.Dynamic.Merge.{IsInserted, insert_free-IsInserted}
use mxtasking.Memory.Dynamic.Usage.{
  region, regions, Takes, first, later, Reaches, created, allocates, refused, frees, AllFit,
  allocate-IsTaken, allocate-none,
}

-- The free elements are sorted, and each address of the block belongs to one free element or to
-- one allocation, and no other does.
pub record IsShared (whole : FreeHeader) (b : AllocationBlock) (live : List Allocation)
    : Type 0 where
  pub separated : IsSeparated 0 b.free_elements
  pub fits : AllFit (regions live)
  pub owned : (x : ℕ) → owners x b.free_elements + owners x (regions live) ≡ covers x whole

-- No address of a region belongs to an element.
abbrev pub IsAlone : FreeHeader → List FreeHeader → Type 0
IsAlone f hs = (x : ℕ) → owners x hs + covers x f ≤ 1

alone-Behind :
    (f : FreeHeader) (before after : List FreeHeader)
    → 0 < f.size
    → AllBelow f.start before
    → IsAlone f (onto before after)
    → Behind f.start before
alone-Behind f [] after s l a = tt
alone-Behind f (p ∷ before) after s l a = elim (dec_lt f.start (end_of p)) [
  | yes q ↦ absurd (
      omega (
        arith,
        a f.start,
        owners-onto f.start (p ∷ before) after,
        covers-inside f.start p (omega (arith, l)) q,
        covers-inside f.start f (omega arith) (omega arith),
      ))
  | no q ↦ omega arith
]

alone-Ahead :
    (f : FreeHeader) (before after : List FreeHeader) (lo : ℕ)
    → IsSeparated lo after
    → NoneBelow f.start after
    → IsAlone f (onto before after)
    → Ahead (end_of f) after
alone-Ahead f before [] lo s l a = tt
alone-Ahead f before (h ∷ after) lo s l a = elim (dec_lt h.start (end_of f)) [
  | yes q ↦ absurd (
      omega (
        arith,
        a h.start,
        owners-onto h.start before (h ∷ after),
        covers-inside h.start h (omega arith) (omega (arith, s.0)),
        covers-inside h.start f l q,
      ))
  | no q ↦ omega arith
]

-- `free` gives an element back that no free element overlaps.
free-IsInserted :
    (b : AllocationBlock) (a : Allocation)
    → IsSeparated 0 b.free_elements
    → Fits 0 (region a)
    → IsAlone (region a) b.free_elements
    → IsSeparated 0 (free a.header_address a.header b).free_elements
      × ((x : ℕ)
          → owners x (free a.header_address a.header b).free_elements
            ≡ owners x b.free_elements + covers x (region a))
free-IsInserted b a s t alone =
    let f : FreeHeader = region a in
    let r : List FreeHeader × List FreeHeader = lower_bound f.start [] b.free_elements in
    let k : Bound f.start 0 [] b.free_elements r =
      lower_bound-Bound f.start 0 [] b.free_elements tt s tt in
    let alone' : IsAlone f (onto r.0 r.1) = subst (IsAlone f) (sym k.whole) alone in
    let i : IsInserted 0 f r.0 r.1 (insert_free f r.0 r.1) =
      insert_free-IsInserted 0 f r.0 r.1 (record {
        fits = t;
        sorted_before = k.before;
        sorted_after = k.after;
        behind = alone-Behind f r.0 r.1 t.1 k.below alone';
        ahead = alone-Ahead f r.0 r.1 (floor 0 r.0) k.after k.above alone';
      }) in
    let e : (free a.header_address a.header b).free_elements ≡ insert_free f r.0 r.1 =
      free-at a.header_address a.header b r.0 r.1 f refl (sym k.whole) k.below k.above in
    (
      subst (IsSeparated 0) (sym e) i.separated,
      λ x. ap (owners x) e ∙ i.owned x ∙ ap (λ hs. owners x hs + covers x f) k.whole,
    )

-- What was taken out of the allocations is one of them.
Takes-owners :
    {a : Allocation} {live rest : List Allocation} (x : ℕ)
    → Takes a live rest
    → owners x (regions live) ≡ covers x (region a) + owners x (regions rest)
Takes-owners x first = refl
Takes-owners x (later t) = omega (arith, Takes-owners x t)

Takes-AllFit :
    {a : Allocation} {live rest : List Allocation}
    → Takes a live rest
    → AllFit (regions live)
    → Fits 0 (region a) × AllFit (regions rest)
Takes-AllFit first f = f
Takes-AllFit (later t) f = let (h, r) = Takes-AllFit t f.1 in (h, (f.0, r))

module _ (id numa_node_id size memory : ℕ) (some_bytes : 0 < size)
    (addressed : memory + size < 2 ^ 48) where
  abbrev whole : FreeHeader
  whole = record { start = memory; size = size }

  pub Reaches-IsShared :
      {b : AllocationBlock} {live : List Allocation}
      → Reaches id numa_node_id size memory b live
      → IsShared whole b live
  Reaches-IsShared created = record {
    separated = ((omega arith, some_bytes, addressed), tt);
    fits = tt;
    owned = λ x. omega arith;
  }
  Reaches-IsShared (allocates {b} {live} {a} k wanted small aligns r e) =
      let s : IsShared whole b live = Reaches-IsShared r in
      let t = allocate-IsTaken k wanted small aligns b s.separated e in
      record {
        separated = t.separated;
        fits = (t.fits, s.fits);
        owned = λ x. omega (arith, s.owned x, t.owned x);
      }
  Reaches-IsShared (refused {b} {live} alignment wanted r e) =
      rw (allocate-none alignment wanted b e) (Reaches-IsShared r)
  Reaches-IsShared (frees {b} {live} {rest} {a} r t) =
      let s : IsShared whole b live = Reaches-IsShared r in
      let (fit, others) = Takes-AllFit t s.fits in
      let (sorted, given) =
        free-IsInserted b a s.separated fit
          (λ x. omega (arith, s.owned x, Takes-owners x t, covers-le x whole)) in
      record {
        separated = sorted;
        fits = others;
        owned = λ x. omega (arith, s.owned x, Takes-owners x t, given x);
      }
