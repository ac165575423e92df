-- ===== src/Memory/Dynamic/Owners.antt =====
-- How many free elements of mx/memory/dynamic_size_allocator.h an address belongs to, and what a
-- cut and a merge do to that number.
use mxtasking.Prelude.{
  ℕ, ◌+◌, ◌≤◌, ◌<◌, ◌≡◌, List, [], ◌∷◌, Bool-cases, inl, inr, arith, ltb, leb, ◌&&◌, if◌then◌else◌,
}
use mxtasking.Memory.Dynamic.{FreeHeader, onto}
use mxtasking.Memory.Dynamic.Sorted.{end_of}

-- 1 for the addresses of an element, and 0 for all others.
unfoldable pub covers : ℕ → FreeHeader → ℕ
covers x h = if leb h.start x && ltb x (end_of h) then 1 else 0

abbrev pub owners : ℕ → List FreeHeader → ℕ
owners x [] = 0
owners x (h ∷ hs) = covers x h + owners x hs

pub owners-onto :
    (x : ℕ) (before after : List FreeHeader)
    → owners x (onto before after) ≡ owners x before + owners x after
owners-onto x [] after = omega arith
owners-onto x (h ∷ before) after = omega (arith, owners-onto x before (h ∷ after))

pub covers-inside : (x : ℕ) (h : FreeHeader) → h.start ≤ x → x < end_of h → covers x h ≡ 1
unfolding covers
covers-inside x h l r = ground arith

pub covers-bounds : (x : ℕ) (h : FreeHeader) → 0 < covers x h → (h.start ≤ x) × (x < end_of h)
unfolding covers
covers-bounds x h p = elim (Bool-cases (leb h.start x && ltb x (end_of h))) [
  | inl e ↦ ground arith
  | inr e ↦ absurd (omega (arith, (let q : 0 < 0 = rw e at p in q)))
]

-- Two elements, one behind the other, cover what one over both covers.
pub covers-joined :
    (x : ℕ) (p f g : FreeHeader)
    → end_of p ≡ f.start
    → g.start ≡ p.start
    → g.size ≡ p.size + f.size
    → covers x g ≡ covers x p + covers x f
unfolding covers
covers-joined x p f g e s z = ground arith

pub covers-same :
    (x : ℕ) (h g : FreeHeader) → h.start ≡ g.start → h.size ≡ g.size → covers x h ≡ covers x g
unfolding covers
covers-same x h g s z = rw (s, z)

pub covers-le : (x : ℕ) (h : FreeHeader) → covers x h ≤ 1
unfolding covers
covers-le x h = ground arith
