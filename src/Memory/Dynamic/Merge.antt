-- ===== src/Memory/Dynamic/Merge.antt =====
-- `AllocationBlock::free` of mx/memory/dynamic_size_allocator.cpp: the element that it inserts or
-- merges is free afterwards, the others stay, and neighbours are merged.
use mxtasking.Prelude.{
  ℕ, ◌+◌, ◌^◌, ◌≤◌, ◌<◌, ◌≡◌, refl, List, [], ◌∷◌, false, Bool-cases, inl, inr, arith,
}
use mxtasking.Memory.Dynamic.{FreeHeader, onto, borders, merge, insert_free, join_left, join_both}
use mxtasking.Memory.Dynamic.Sorted.{IsSeparated, IsBefore, Fits, floor, end_of, join}
use mxtasking.Memory.Dynamic.Separate.{
  IsGap, Behind, borders-end, borders-apart, merge-right, merge-left, lower-IsSeparated,
}
use mxtasking.Memory.Dynamic.Owners.{covers, owners, owners-onto, covers-joined}

-- The free elements `hs` are sorted, and each address belongs to as many as of `before` and
-- `after`, and to the element `f`.
pub record IsInserted (lo : ℕ) (f : FreeHeader) (before after hs : List FreeHeader) : Type 0 where
  pub separated : IsSeparated lo hs
  pub owned : (x : ℕ) → owners x hs ≡ owners x (onto before after) + covers x f

-- An element put between others that it does not touch.
place :
    (lo : ℕ) (f : FreeHeader) (before after : List FreeHeader)
    → IsBefore lo before
    → Fits (floor lo before) f
    → IsSeparated (end_of f + 1) after
    → IsInserted lo f before after (onto before (f ∷ after))
place lo f before after b t s = record {
  separated = join lo before (f ∷ after) b (t, s);
  owned = λ x. omega (arith, owners-onto x before (f ∷ after), owners-onto x before after);
}

-- An element put between others, of which the nearest before it may take it in.
join_left-IsInserted :
    (lo : ℕ) (f : FreeHeader) (before after : List FreeHeader)
    → IsBefore lo before
    → Fits lo f
    → Behind f.start before
    → IsSeparated (end_of f + 1) after
    → IsInserted lo f before after (join_left f before after)
unfolding join_left
join_left-IsInserted lo f [] after b t h s = place lo f [] after b t s
join_left-IsInserted lo f (p ∷ before) after b t h s = elim (Bool-cases (borders p f)) [
  | inr e ↦ rw e (place lo f (p ∷ before) after b (borders-apart p f b.0.2 h e, t.1, t.2) s)
  | inl e ↦
      let m = merge-right p f t.2 (borders-end p f b.0.2 e) b.0.1 in
      let end : end_of (merge p f) ≡ end_of f = omega (arith, m, borders-end p f b.0.2 e) in
      rw e (record {
        separated = join lo before (merge p f ∷ after) b.1 (
          (omega (arith, m, b.0), omega (arith, m, b.0), omega (arith, end, t)),
          lower-IsSeparated (end_of f + 1) (end_of (merge p f) + 1) after (omega (arith, end)) s,
        );
        owned = λ x. omega (
          arith,
          owners-onto x before (merge p f ∷ after),
          owners-onto x before (p ∷ after),
          covers-joined x p f (merge p f) (borders-end p f b.0.2 e) m.0 m.1,
        );
      })
]

join_both-left :
    (h : FreeHeader) (before after : List FreeHeader)
    → join_both h before after ≡ join_left h before after
unfolding join_both join_left
join_both-left h [] after = refl
join_both-left h (p ∷ before) after = refl

next_apart :
    (lo : ℕ) (f h : FreeHeader) (hs : List FreeHeader)
    → end_of f < 2 ^ 48
    → end_of f ≤ h.start
    → borders f h ≡ false
    → IsSeparated lo (h ∷ hs)
    → IsSeparated (end_of f + 1) (h ∷ hs)
next_apart lo f h hs l a e s = ((borders-apart f h l a e, s.0.1, s.0.2), s.1)

pub insert_free-IsInserted :
    (lo : ℕ) (f : FreeHeader) (before after : List FreeHeader)
    → IsGap lo f before after
    → IsInserted lo f before after (insert_free f before after)
unfolding insert_free
insert_free-IsInserted lo f before [] g =
    join_left-IsInserted lo f before [] g.sorted_before g.fits g.behind tt
insert_free-IsInserted lo f before (h ∷ hs) g = elim (Bool-cases (borders f h)) [
  | inr e ↦ rw e (
      join_left-IsInserted lo f before (h ∷ hs) g.sorted_before g.fits g.behind
        (next_apart (floor lo before) f h hs g.fits.2 g.ahead e g.sorted_after))
  | inl e ↦
      let touch = borders-end f h g.fits.2 e in
      let m = merge-left h f g.sorted_after.0.2 touch g.fits.1 in
      let end : end_of (merge h f) ≡ end_of h = omega (arith, m, touch) in
      let r : IsInserted lo (merge h f) before hs (join_left (merge h f) before hs) =
        join_left-IsInserted lo (merge h f) before hs g.sorted_before
          (omega (arith, m, g.fits), omega (arith, m, g.fits), omega (arith, end, g.sorted_after.0))
          (Behind-start before g.behind m.0)
          (lower-IsSeparated (end_of h + 1) (end_of (merge h f) + 1) hs (omega (arith, end))
            g.sorted_after.1) in
      rw (e, join_both-left (merge h f) before hs)
        (record {
          separated = r.separated;
          owned = λ x. omega (
            arith,
            r.owned x,
            owners-onto x before (h ∷ hs),
            owners-onto x before hs,
            covers-joined x f h (merge h f) touch m.0 (omega (arith, m)),
          );
        })
]
  where
    Behind-start : {x y : ℕ} (before : List FreeHeader) → Behind x before → y ≡ x → Behind y before
    Behind-start [] b e = tt
    Behind-start (p ∷ before) b e = omega arith
