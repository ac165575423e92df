-- ===== src/Memory/Dynamic/Separate.antt =====
-- What a cut and a merge of mx/memory/dynamic_size_allocator.cpp do to the order of the free
-- elements.
use mxtasking.Prelude.{ℕ, ◌+◌, ◌^◌, ◌≤◌, ◌<◌, ◌≡◌, List, [], ◌∷◌, true, false, arith}
use mxtasking.Memory.Dynamic.{FreeHeader, onto, borders, merge}
use mxtasking.Memory.Dynamic.Sorted.{IsSeparated, IsBefore, Fits, floor, end_of, join}

-- What begins behind a bound begins behind a lower one.
pub lower-IsSeparated :
    (lo lo' : ℕ) (hs : List FreeHeader) → lo' ≤ lo → IsSeparated lo hs → IsSeparated lo' hs
lower-IsSeparated lo lo' [] l s = tt
lower-IsSeparated lo lo' (h ∷ hs) l s = ((omega (arith, s.0), s.0.1, s.0.2), s.1)

-- An element at an iterator is dropped.
pub drop-IsSeparated :
    (lo : ℕ) (h : FreeHeader) (before after : List FreeHeader)
    → IsBefore lo before
    → IsSeparated (floor lo before) (h ∷ after)
    → IsSeparated lo (onto before after)
drop-IsSeparated lo h before after b s =
    join lo before after b
      (lower-IsSeparated (end_of h + 1) (floor lo before) after (omega (arith, s.0)) s.1)

-- An element at an iterator is replaced by one inside it that begins with it.
pub shrink-IsSeparated :
    (lo : ℕ) (h g : FreeHeader) (before after : List FreeHeader)
    → IsBefore lo before
    → IsSeparated (floor lo before) (h ∷ after)
    → g.start ≡ h.start
    → 0 < g.size
    → g.size ≤ h.size
    → IsSeparated lo (onto before (g ∷ after))
shrink-IsSeparated lo h g before after b s e p l = join lo before (g ∷ after) b (
  (omega (arith, s.0, e), p, omega (arith, s.0, e)),
  lower-IsSeparated (end_of h + 1) (end_of g + 1) after (omega (arith, s.0, e)) s.1,
)

-- A freed element lies behind the elements before an iterator, and ahead of those from it on.
abbrev pub Behind : ℕ → List FreeHeader → Type 0
Behind x [] = Unit {0}
Behind x (p ∷ before) = end_of p ≤ x

abbrev pub Ahead : ℕ → List FreeHeader → Type 0
Ahead x [] = Unit {0}
Ahead x (h ∷ after) = x ≤ h.start

-- A freed element that `insert_free` may put between `before` and `after`.
pub record IsGap (lo : ℕ) (f : FreeHeader) (before after : List FreeHeader) : Type 0 where
  pub fits : Fits lo f
  pub sorted_before : IsBefore lo before
  pub sorted_after : IsSeparated (floor lo before) after
  pub behind : Behind f.start before
  pub ahead : Ahead (end_of f) after

pub borders-end : (p f : FreeHeader) → end_of p < 2 ^ 48 → borders p f ≡ true → end_of p ≡ f.start
borders-end p f l e = ground arith

pub borders-apart :
    (p f : FreeHeader)
    → end_of p < 2 ^ 48
    → end_of p ≤ f.start
    → borders p f ≡ false
    → end_of p + 1 ≤ f.start
borders-apart p f l h e = ground arith

-- A merge with the right neighbour.
pub merge-right :
    (p f : FreeHeader)
    → end_of f < 2 ^ 48
    → end_of p ≡ f.start
    → 0 < p.size
    → ((merge p f).start ≡ p.start) × ((merge p f).size ≡ p.size + f.size)
merge-right p f l e s = ground arith

-- A merge with the left neighbour.
pub merge-left :
    (h f : FreeHeader)
    → end_of h < 2 ^ 48
    → end_of f ≡ h.start
    → 0 < f.size
    → ((merge h f).start ≡ f.start) × ((merge h f).size ≡ h.size + f.size)
merge-left h f l e s = ground arith
