-- ===== src/Memory/Dynamic/Sorted.antt =====
-- The order of the free elements of mx/memory/dynamic_size_allocator.h, and iterators into them.
use mxtasking.Prelude.{
  ℕ, ◌+◌, ◌^◌, ◌≤◌, ◌<◌, ◌≡◌, refl, ◌∙◌, List, [], ◌∷◌, ◌++◌, Bool-cases, inl, inr, ltb, ltb→lt,
  lt→ltb, arith, append-nil,
}
use mxtasking.Memory.Dynamic.{FreeHeader, onto, lower_bound}

abbrev pub end_of : FreeHeader → ℕ
end_of h = h.start + h.size

-- A free element that is not empty and lies below the 48 bits of an address, from `lo` on.
abbrev pub Fits : ℕ → FreeHeader → Type 0
Fits lo h = (lo ≤ h.start) × (0 < h.size) × (end_of h < 2 ^ 48)

-- The elements are sorted, and between two there is a gap: neighbours have been merged.
abbrev pub IsSeparated : ℕ → List FreeHeader → Type 0
IsSeparated lo [] = Unit {0}
IsSeparated lo (h ∷ hs) = Fits lo h × IsSeparated (end_of h + 1) hs

-- Where the elements behind an iterator may begin.
abbrev pub floor : ℕ → List FreeHeader → ℕ
floor lo [] = lo
floor lo (h ∷ before) = end_of h + 1

-- The elements before an iterator, the nearest first.
abbrev pub IsBefore : ℕ → List FreeHeader → Type 0
IsBefore lo [] = Unit {0}
IsBefore lo (h ∷ before) = Fits (floor lo before) h × IsBefore lo before

pub join :
    (lo : ℕ) (before after : List FreeHeader)
    → IsBefore lo before
    → IsSeparated (floor lo before) after
    → IsSeparated lo (onto before after)
join lo [] after b s = s
join lo (h ∷ before) after b s = join lo before (h ∷ after) b.1 (b.0, s)

pub split :
    (lo : ℕ) (before after : List FreeHeader)
    → IsSeparated lo (onto before after)
    → IsBefore lo before × IsSeparated (floor lo before) after
split lo [] after s = (tt, s)
split lo (h ∷ before) after s = let (b, r) = split lo before (h ∷ after) s in ((r.0, b), r.1)

-- All elements before an iterator begin below `x`.
abbrev pub AllBelow : ℕ → List FreeHeader → Type 0
AllBelow x [] = Unit {0}
AllBelow x (h ∷ before) = (h.start < x) × AllBelow x before

-- No element from an iterator on begins below `x`, as far as the first shows.
abbrev pub NoneBelow : ℕ → List FreeHeader → Type 0
NoneBelow x [] = Unit {0}
NoneBelow x (h ∷ hs) = x ≤ h.start

pub AllBelow-floor :
    (lo x : ℕ) (before : List FreeHeader)
    → IsBefore lo before
    → floor lo before ≤ x
    → AllBelow x before
AllBelow-floor lo x [] b h = tt
AllBelow-floor lo x (p ∷ before) b h =
    (omega arith, AllBelow-floor lo x before b.1 (omega (arith, b.0.0)))

lower_bound-onto :
    (x : ℕ) (before acc after : List FreeHeader)
    → AllBelow x before
    → lower_bound x acc (onto before after) ≡ lower_bound x (before ++ acc) after
lower_bound-onto x [] acc after a = refl
lower_bound-onto x (h ∷ before) acc after a =
    lower_bound-onto x before acc (h ∷ after) a.1 ∙ (rw (lt→ltb h.start x a.0))

lower_bound-stop :
    (x : ℕ) (acc after : List FreeHeader)
    → NoneBelow x after
    → lower_bound x acc after ≡ (acc, after)
lower_bound-stop x acc [] n = refl
lower_bound-stop x acc (h ∷ hs) n = ground arith

-- `lower_bound` finds the iterator at which the addresses pass `x`.
pub lower_bound-split :
    (x : ℕ) (before after : List FreeHeader)
    → AllBelow x before
    → NoneBelow x after
    → lower_bound x [] (onto before after) ≡ (before, after)
lower_bound-split x before after a n =
    lower_bound-onto x before [] after a ∙ (rw append-nil (lower_bound-stop x before after n))

-- What `lower_bound` finds is an iterator into the elements that it was given.
pub record Bound (x lo : ℕ) (acc hs : List FreeHeader) (r : List FreeHeader × List FreeHeader)
    : Type 0 where
  pub whole : onto r.0 r.1 ≡ onto acc hs
  pub before : IsBefore lo r.0
  pub after : IsSeparated (floor lo r.0) r.1
  pub below : AllBelow x r.0
  pub above : NoneBelow x r.1

pub lower_bound-Bound :
    (x lo : ℕ) (acc hs : List FreeHeader)
    → IsBefore lo acc
    → IsSeparated (floor lo acc) hs
    → AllBelow x acc
    → Bound x lo acc hs (lower_bound x acc hs)
lower_bound-Bound x lo acc [] b s a = record {
  whole = refl;
  before = b;
  after = s;
  below = a;
  above = tt;
}
lower_bound-Bound x lo acc (h ∷ hs) b s a = elim (Bool-cases (ltb h.start x)) [
  | inl e ↦ rw e (shift (lower_bound-Bound x lo (h ∷ acc) hs (s.0, b) s.1 (ltb→lt h.start x e, a)))
  | inr e ↦ rw e (record { whole = refl; before = b; after = s; below = a; above = ground arith })
]
  where
    shift :
        {r : List FreeHeader × List FreeHeader}
        → Bound x lo (h ∷ acc) hs r
        → Bound x lo acc (h ∷ hs) r
    shift f = record {
      whole = f.whole;
      before = f.before;
      after = f.after;
      below = f.below;
      above = f.above;
    }
