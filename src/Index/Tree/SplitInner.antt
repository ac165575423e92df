-- ===== src/Index/Tree/SplitInner.antt =====
-- What the split of an inner node of db/index/blinktree/b_link_tree.h leaves in the two nodes.
pub mod Order
pub mod Branches
use mathlib.Core.Path.{ap₂}
use mxtasking.Prelude.{
  ℕ, zero, suc, ◌+◌, ◌-◌, ◌/◌, ◌^◌, ◌≤◌, ◌<◌, ◌≡◌, ◌≢◌, refl, sym, ap, ◌∙◌, List, ◌∷◌, ◌++◌, false,
  Bool-cases, inl, inr, ltb, ◌==◌, if◌then◌else◌, arith, dec_lt,
}
use mxtasking.Resource.Ptr.{Ptr}
use mxtasking.Index.Node.{Node, is_leaf, is_branch, index, insert_separator, move, copy}
use mxtasking.Index.Node.Search.{IsSorted, IsLowerBound, index-IsLowerBound}
use mxtasking.Index.Node.Halves.{index-left, index-from}
use mxtasking.Index.Node.Insertion.{
  insert_at, insert_separator-keys, insert_separator-separators, insert_at-before, insert_at_self,
  insert_at-behind, insert_at-shift,
}
use mxtasking.Index.Node.Records.{slice, slice_eq, slice_join}
use mxtasking.Index.Tree.{Memory, split_inner, create_inner_node}

module _ (n : Node) (key at : ℕ) (separator : Ptr) where
  -- The nodes after a split, and the key between them: one behind the other, they hold the keys of
  -- the old node and the new one, and its children and the new one.
  pub record Holds (left right : Node) (key_up : ℕ) : Type 0 where
    pub sizes : left.size + 1 + right.size ≡ n.size + 1
    pub left_keys : (i : ℕ) → i < left.size → left.keys i ≡ insert_at n.keys at key i
    pub key_between : key_up ≡ insert_at n.keys at key left.size
    pub right_keys :
        (i : ℕ) → i < right.size → right.keys i ≡ insert_at n.keys at key (left.size + 1 + i)
    pub left_children :
        (i : ℕ) → i ≤ left.size → left.separators i ≡ insert_at n.separators (at + 1) separator i
    pub right_children :
        (i : ℕ)
        → i ≤ right.size
        → right.separators i ≡ insert_at n.separators (at + 1) separator (left.size + 1 + i)

module _ (max_keys : ℕ) (m : Memory) (new_inner : Ptr) (n : Node) (key at : ℕ) (separator : Ptr)
    (is_inner : is_leaf n ≡ false) (two : 2 ≤ max_keys) (bound : max_keys + 1 < 2 ^ 16)
    (is_full : n.size ≡ max_keys) (s : IsSorted n) (b : IsLowerBound n.keys key 0 n.size at)
    (fresh : at < n.size → n.keys at ≢ key) where
  abbrev half : ℕ
  half = max_keys / 2

  -- What the new node gets from `move`, with its first child.
  record IsTail (from : ℕ) (right : Node) : Type 0 where
    moved_keys : (i : ℕ) → i < n.size - from → right.keys i ≡ n.keys (from + i)
    moved_children :
        (i : ℕ) → i < n.size - from → right.separators (i + 1) ≡ n.separators (from + 1 + i)

  -- What the part of the old node that `move` leaves behind is.
  record IsFront (left : Node) : Type 0 where
    held_keys : (i : ℕ) → left.keys i ≡ n.keys i
    held_children : (i : ℕ) → left.separators i ≡ n.separators i

  size_up :
      (x : Node) (a c : ℕ)
      → c < 2 ^ 16
      → x.size + 1 ≡ c
      → (insert_separator x a separator key).size ≡ c
  unfolding insert_separator
  size_up x a c l e = omega arith

  -- All children of the new node, its first one included.
  tail_children :
      (right : Node) (from : ℕ)
      → IsTail from right
      → right.separators 0 ≡ n.separators from
      → (i : ℕ) → i ≤ n.size - from
      → right.separators i ≡ n.separators (from + i)
  tail_children right from r first zero q = first ∙ ap n.separators (omega arith)
  tail_children right from r first (suc i) q =
      ap right.separators (omega arith)
      ∙ r.moved_children i (omega arith)
      ∙ ap n.separators (omega arith)

  -- The key goes to the left node.
  into_left-Holds :
      (left right : Node)
      → IsFront left
      → left.size ≡ half - 1
      → IsTail half right
      → right.size ≡ max_keys - half
      → right.separators 0 ≡ n.separators half
      → key < n.keys (half - 1)
      → Holds n key at separator
          (insert_separator left (index left key) separator key)
          right
          (n.keys (half - 1))
  into_left-Holds left right f fs r rs first h =
      let small : left.size < n.size = omega arith in
      let up : key < n.keys left.size = omega (arith, ap n.keys fs) in
      let (found, inside) = index-left n at key s b left f.held_keys small up in
      let a : ℕ = index left key in
      let fits : a ≤ left.size = omega arith in
      let grown : (insert_separator left a separator key).size ≡ half =
        size_up left a half (omega arith) (omega arith) in
      record {
        sizes = omega (arith, grown);
        left_keys = λ i q.
            insert_separator-keys left a separator key i fits (omega (arith, grown))
            ∙ insert_at-shift left.keys n.keys 0 a at left.size i key
                (λ j p. f.held_keys j ∙ ap n.keys (omega arith)) (omega arith) fits
                (omega (arith, grown))
            ∙ ap (insert_at n.keys at key) (omega arith);
        key_between =
            sym (insert_at-behind n.keys at key (half - 1) (omega arith))
            ∙ ap (insert_at n.keys at key) (omega (arith, grown));
        right_keys = λ i q.
            r.moved_keys i (omega arith)
            ∙ sym (insert_at-behind n.keys at key (half + i) (omega arith))
            ∙ ap (insert_at n.keys at key) (omega (arith, grown));
        left_children = λ i q.
            insert_separator-separators left a separator key i fits (omega (arith, grown))
            ∙ insert_at-shift left.separators n.separators 0 (a + 1) (at + 1) (left.size + 1) i
                separator (λ j p. f.held_children j ∙ ap n.separators (omega arith)) (omega arith)
                (omega arith) (omega (arith, grown))
            ∙ ap (insert_at n.separators (at + 1) separator) (omega arith);
        right_children = λ i q.
            tail_children right half r first i (omega arith)
            ∙ sym (insert_at-behind n.separators (at + 1) separator (half + i) (omega arith))
            ∙ ap (insert_at n.separators (at + 1) separator) (omega (arith, grown));
      }

  -- The key goes to the parent.
  between-Holds :
      (left right : Node)
      → IsFront left
      → left.size ≡ half
      → IsTail half right
      → right.size ≡ max_keys - half
      → right.separators 0 ≡ separator
      → half ≡ at
      → Holds n key at separator left right key
  between-Holds left right f fs r rs first e = record {
    sizes = omega arith;
    left_keys = λ i q. f.held_keys i ∙ sym (insert_at-before n.keys at key i (omega arith));
    key_between = sym (insert_at_self n.keys at key) ∙ ap (insert_at n.keys at key) (omega arith);
    right_keys = λ i q.
        r.moved_keys i (omega arith)
        ∙ sym (insert_at-behind n.keys at key (half + i) (omega arith))
        ∙ ap (insert_at n.keys at key) (omega arith);
    left_children = λ i q.
        f.held_children i ∙ sym (insert_at-before n.separators (at + 1) separator i (omega arith));
    right_children = children;
  }
    where
      children :
          (i : ℕ)
          → i ≤ right.size
          → right.separators i ≡ insert_at n.separators (at + 1) separator (left.size + 1 + i)
      children zero q =
          first
          ∙ sym (insert_at_self n.separators (at + 1) separator)
          ∙ ap (insert_at n.separators (at + 1) separator) (omega arith)
      children (suc i) q =
          ap right.separators (omega arith)
          ∙ r.moved_children i (omega arith)
          ∙ sym (insert_at-behind n.separators (at + 1) separator (half + 1 + i) (omega arith))
          ∙ ap (insert_at n.separators (at + 1) separator) (omega arith)

  -- The key goes to the right node.
  into_right-Holds :
      (left right : Node)
      → IsFront left
      → left.size ≡ half
      → IsTail (half + 1) right
      → right.size ≡ max_keys - half - 1
      → right.separators 0 ≡ n.separators (half + 1)
      → half < at
      → Holds n key at separator left
          (insert_separator right (index right key) separator key)
          (n.keys half)
  into_right-Holds left right f fs r rs first h =
      let found : half + 1 + index right key ≡ at =
        index-from n at key s b right (half + 1) (λ i q. r.moved_keys i (omega arith)) (omega arith)
          (omega arith) in
      let a : ℕ = index right key in
      let fits : a ≤ right.size = omega (arith, b.to) in
      let grown : (insert_separator right a separator key).size ≡ max_keys - half =
        size_up right a (max_keys - half) (omega arith) (omega arith) in
      record {
        sizes = omega (arith, grown);
        left_keys = λ i q. f.held_keys i ∙ sym (insert_at-before n.keys at key i (omega arith));
        key_between =
            sym (insert_at-before n.keys at key half h)
            ∙ ap (insert_at n.keys at key) (omega arith);
        right_keys = λ i q.
            insert_separator-keys right a separator key i fits (omega (arith, grown))
            ∙ insert_at-shift right.keys n.keys (half + 1) a at right.size i key
                (λ j p. r.moved_keys j (omega arith)) found fits (omega (arith, grown))
            ∙ ap (insert_at n.keys at key) (omega arith);
        left_children = λ i q.
            f.held_children i
            ∙ sym (insert_at-before n.separators (at + 1) separator i (omega arith));
        right_children = λ i q.
            insert_separator-separators right a separator key i fits (omega (arith, grown))
            ∙ insert_at-shift right.separators n.separators (half + 1) (a + 1) (at + 1)
                (right.size + 1) i separator
                (λ j p. tail_children right (half + 1) r first j (omega arith))
                (omega (arith, found)) (omega arith) (omega (arith, grown))
            ∙ ap (insert_at n.separators (at + 1) separator) (omega arith);
      }

  -- The key between the two in the middle belongs at the second.
  middle : n.keys (half - 1) ≤ key → key < n.keys half → half ≡ at
  middle l h =
      let not_less : half ≤ at = elim (dec_lt at half) [
        | yes q ↦ absurd (elim (dec_lt at (half - 1)) [
          | yes r ↦ omega (arith, b.above (omega arith), s at (half - 1) r (omega arith))
          | no r ↦
              let e : at ≡ half - 1 = omega arith in
              fresh (omega arith) (omega (arith, b.above (omega arith), ap n.keys e))
        ])
        | no q ↦ omega arith
      ] in
      let not_greater : at ≤ half = elim (dec_lt half at) [
        | yes q ↦ absurd (omega (arith, b.below half (omega arith) q))
        | no q ↦ omega arith
      ] in
      omega arith

  right_of_middle : n.keys half ≤ key → half < at
  right_of_middle l = elim (dec_lt half at) [
    | yes q ↦ q
    | no q ↦ absurd (elim (dec_lt at half) [
      | yes r ↦ omega (arith, b.above (omega arith), s at half r (omega arith))
      | no r ↦
          let e : at ≡ half = omega arith in
          fresh (omega arith) (omega (arith, b.above (omega arith), ap n.keys e))
    ])
  ]
