-- ===== src/Index/Tree/SplitInner/Branches.antt =====
-- The branches of the split of an inner node of db/index/blinktree/b_link_tree.h.
use mxtasking.Prelude.{
  ℕ, ◌+◌, ◌-◌, ◌/◌, ◌^◌, ◌≤◌, ◌<◌, ◌≡◌, ◌≢◌, refl, ap, ◌∙◌, false, Bool-cases, inl, inr, ltb, arith,
}
use mxtasking.Resource.Ptr.{Ptr}
use mxtasking.Index.Node.{Node, is_leaf, is_branch, index, insert_separator, move, store}
use mxtasking.Index.Node.Search.{IsSorted, IsLowerBound, index-IsLowerBound}
use mxtasking.Index.Tree.{Memory, split_inner, create_inner_node}
use mxtasking.Index.Tree.SplitInner.{
  Holds, IsTail, IsFront, into_left-Holds, between-Holds, into_right-Holds, middle, right_of_middle,
}
use mxtasking.Index.Tree.SplitInner.Order.{IsInnerSplit, Holds-IsInnerSplit}

module _ (max_keys : ℕ) (m : Memory) (new_inner : Ptr) (n : Node) (key at : ℕ) (separator : Ptr)
    (is_inner : is_leaf n ≡ false) (two : 2 ≤ max_keys) (bound : max_keys + 1 < 2 ^ 16)
    (is_full : n.size ≡ max_keys) (s : IsSorted n) (b : IsLowerBound n.keys key 0 n.size at)
    (fresh : at < n.size → n.keys at ≢ key) where
  abbrev half : ℕ
  half = max_keys / 2

  -- The new node, before the insertion.
  abbrev new_node : ℕ → ℕ → Ptr → Node
  new_node from count first =
      let moved =
        move n
          (record (create_inner_node m (is_branch n) n.parent) {
            high_key = n.high_key;
            right_sibling = n.right_sibling;
          })
          from count in
      record moved { separators = store moved.separators 0 first; size = count }

  new_node-IsTail :
      (from count : ℕ) (first : Ptr)
      → count ≡ n.size - from
      → IsTail max_keys m new_inner n key at separator is_inner two bound is_full s b fresh from
          (new_node from count first)
  unfolding move
  new_node-IsTail from count first e = rw is_inner (record {
    moved_keys =
        λ i h. let back : i - 0 + from ≡ from + i = omega arith in ground (arith, ap n.keys back);
    moved_children = λ i h.
        let back : i + 1 - 1 + (from + 1) ≡ from + 1 + i = omega arith in
        ground (arith, ap n.separators back);
  })

  new_node-first : (from count : ℕ) (first : Ptr) → (new_node from count first).separators 0 ≡ first
  new_node-first from count first = refl

  new_node-header :
      (from count : ℕ) (first : Ptr)
      → ((new_node from count first).high_key ≡ n.high_key)
        × ((new_node from count first).right_sibling ≡ n.right_sibling)
  unfolding move
  new_node-header from count first = rw is_inner (refl, refl)

  -- The old node, cut off at a size.
  abbrev front : ℕ → Node
  front size = record n { size = size }

  front-IsFront :
      (size : ℕ)
      → IsFront max_keys m new_inner n key at separator is_inner two bound is_full s b fresh
          (front size)
  front-IsFront size = record { held_keys = λ i. refl; held_children = λ i. refl }

  -- The header of the left node is written at the end.
  header-IsInnerSplit :
      (left right : Node) (key_up : ℕ)
      → Holds n key at separator left right key_up
      → right.high_key ≡ n.high_key
      → right.right_sibling ≡ n.right_sibling
      → IsInnerSplit max_keys new_inner n key at separator
          (record left { right_sibling = new_inner; high_key = key_up }, right, key_up)
  header-IsInnerSplit left right key_up h hr sr =
      Holds-IsInnerSplit max_keys new_inner n key at separator s b fresh
        (record left { right_sibling = new_inner; high_key = key_up }) right key_up
        (record {
          sizes = h.sizes;
          left_keys = h.left_keys;
          key_between = h.key_between;
          right_keys = h.right_keys;
          left_children = h.left_children;
          right_children = h.right_children;
        })
        refl hr refl sr (omega (arith, h.sizes)) (omega (arith, h.sizes))

  insert_separator-high_key :
      (x : Node) (a : ℕ) → (insert_separator x a separator key).high_key ≡ x.high_key
  unfolding insert_separator
  insert_separator-high_key x a = refl

  insert_separator-sibling :
      (x : Node) (a : ℕ) → (insert_separator x a separator key).right_sibling ≡ x.right_sibling
  unfolding insert_separator
  insert_separator-sibling x a = refl

  split_inner_lem :
      IsInnerSplit max_keys new_inner n key at separator
        (split_inner max_keys m new_inner n key separator)
  unfolding split_inner
  split_inner_lem = elim (Bool-cases (ltb key (n.keys (half - 1)))) [
    | inl e ↦ rw e (
        header-IsInnerSplit _ _ (n.keys (half - 1))
          (into_left-Holds max_keys m new_inner n key at separator is_inner two bound is_full s b
            fresh (front (half - 1)) (new_node half (max_keys - half) (n.separators half))
            (front-IsFront (half - 1)) refl
            (new_node-IsTail half (max_keys - half) (n.separators half) (omega arith)) refl
            (new_node-first half (max_keys - half) (n.separators half)) (ground arith))
          (new_node-header half (max_keys - half) (n.separators half)).0
          (new_node-header half (max_keys - half) (n.separators half)).1)
    | inr e ↦ elim (Bool-cases (ltb key (n.keys half))) [
      | inl f ↦
          rw (e, f)
            (header-IsInnerSplit (front half) (new_node half (max_keys - half) separator) key
              (between-Holds max_keys m new_inner n key at separator is_inner two bound is_full s b
                fresh (front half) (new_node half (max_keys - half) separator) (front-IsFront half)
                refl (new_node-IsTail half (max_keys - half) separator (omega arith)) refl
                (new_node-first half (max_keys - half) separator)
                (middle max_keys m new_inner n key at separator is_inner two bound is_full s b fresh
                  (ground arith) (ground arith)))
              (new_node-header half (max_keys - half) separator).0
              (new_node-header half (max_keys - half) separator).1)
      | inr f ↦
          let right : Node = new_node (half + 1) (max_keys - half - 1) (n.separators (half + 1)) in
          let header = new_node-header (half + 1) (max_keys - half - 1) (n.separators (half + 1)) in
          rw (e, f)
            (header-IsInnerSplit (front half)
              (insert_separator right (index right key) separator key) (n.keys half)
              (into_right-Holds max_keys m new_inner n key at separator is_inner two bound is_full s
                b fresh (front half) right (front-IsFront half) refl
                (new_node-IsTail (half + 1) (max_keys - half - 1) (n.separators (half + 1))
                  (omega arith))
                refl (new_node-first (half + 1) (max_keys - half - 1) (n.separators (half + 1)))
                (right_of_middle max_keys m new_inner n key at separator is_inner two bound is_full
                  s b fresh (ground arith)))
              (insert_separator-high_key right (index right key) ∙ header.0)
              (insert_separator-sibling right (index right key) ∙ header.1))
    ]
  ]

-- A full inner node with sorted keys and room for at least two, when a key that it does not hold
-- and a child behind it are inserted, is split into two nodes: the keys of the first, the key for
-- the parent and the keys of the second are its keys and the new one, in order, and the children of
-- the two are its children and the new one, behind the place of the new key. The key for the parent
-- is above the keys of the first node, of which it is the new high key, and below those of the
-- second, which takes over the old high key and the old right sibling and is the right sibling of
-- the first. Neither holds more than it has room for.
pub split_inner-IsInnerSplit :
    (max_keys : ℕ) (m : Memory) (new_inner : Ptr) (n : Node) (key : ℕ) (separator : Ptr)
    → is_leaf n ≡ false
    → 2 ≤ max_keys
    → max_keys + 1 < 2 ^ 16
    → n.size ≡ max_keys
    → IsSorted n
    → ((i : ℕ) → i < n.size → n.keys i ≢ key)
    → IsInnerSplit max_keys new_inner n key
        (index n key)
        separator
        (split_inner max_keys m new_inner n key separator)
split_inner-IsInnerSplit max_keys m new_inner n key separator t two bound is_full s fresh =
    split_inner_lem max_keys m new_inner n key (index n key) separator t two bound is_full s
      (index-IsLowerBound n key) (fresh (index n key))
