-- ===== src/Index/Tree/SplitInner/Order.antt =====
-- The split of an inner node of db/index/blinktree/b_link_tree.h, all three branches of it: the keys
-- and the children of the two nodes, and their order.
use mathlib.Core.Path.{ap₂}
use mxtasking.Prelude.{ℕ, suc, ◌+◌, ◌-◌, ◌≤◌, ◌<◌, ◌≡◌, ◌≢◌, sym, ap, ◌∙◌, ◌∷◌, ◌++◌, arith, dec_lt}
use mxtasking.Resource.Ptr.{Ptr}
use mxtasking.Index.Node.{Node}
use mxtasking.Index.Node.Search.{IsSorted, IsLowerBound}
use mxtasking.Index.Node.Insertion.{insert_at}
use mxtasking.Index.Node.Records.{slice, slice_eq, slice_split}
use mxtasking.Index.Tree.SplitInner.{Holds}

-- The nodes and the key for the parent after a split: one behind the other, they hold the keys of
-- the old node with the new key at the index `at`, and its children with the new one behind that
-- place. The key for the parent separates the keys, and is the high key of the left node, whose
-- right sibling is the new node; that takes over the old high key and the old sibling.
pub record IsInnerSplit (max_keys : ℕ) (new_inner : Ptr) (n : Node) (key at : ℕ) (separator : Ptr)
    (out : Node × Node × ℕ) : Type 0 where
  pub kept_keys :
      slice out.0.keys 0 out.0.size ++ out.2 ∷ slice out.1.keys 0 out.1.size
      ≡ slice (insert_at n.keys at key) 0 (n.size + 1)
  pub kept_children :
      slice out.0.separators 0 (out.0.size + 1) ++ slice out.1.separators 0 (out.1.size + 1)
      ≡ slice (insert_at n.separators (at + 1) separator) 0 (n.size + 2)
  pub left_below : (i : ℕ) → i < out.0.size → out.0.keys i < out.2
  pub right_above : (i : ℕ) → i < out.1.size → out.2 < out.1.keys i
  pub high_left : out.0.high_key ≡ out.2
  pub high_right : out.1.high_key ≡ n.high_key
  pub sibling_left : out.0.right_sibling ≡ new_inner
  pub sibling_right : out.1.right_sibling ≡ n.right_sibling
  pub left_room : out.0.size ≤ max_keys
  pub right_room : out.1.size ≤ max_keys

module _ (n : Node) (key at : ℕ) (s : IsSorted n) (b : IsLowerBound n.keys key 0 n.size at)
    (fresh : at < n.size → n.keys at ≢ key) where
  -- A key that is new keeps the order.
  insert_at-sorted :
      (i j : ℕ) → i < j → j ≤ n.size → insert_at n.keys at key i < insert_at n.keys at key j
  unfolding insert_at
  insert_at-sorted i j l h =
      let up : at < n.size → key < n.keys at = λ q. elim (dec_lt key (n.keys at)) [
        | yes r ↦ r
        | no r ↦ absurd (fresh q (omega (arith, b.above q)))
      ] in
      let above : at < j → key < n.keys (j - 1) = λ q. elim (dec_lt at (j - 1)) [
        | yes r ↦ omega (arith, up (omega arith), s at (j - 1) r (omega arith))
        | no r ↦ let e : at ≡ j - 1 = omega arith in omega (arith, up (omega arith), ap n.keys e)
      ] in
      elim (dec_lt i at) [
        | yes q ↦ elim (dec_lt j at) [
          | yes r ↦ ground (arith, s i j l (omega arith))
          | no r ↦ elim (dec_lt at j) [
            | yes t ↦ ground (arith, b.below i (omega arith) q, above t)
            | no t ↦ ground (arith, b.below i (omega arith) q)
          ]
        ]
        | no q ↦ elim (dec_lt at i) [
          | yes r ↦ ground (arith, s (i - 1) (j - 1) (omega arith) (omega arith))
          | no r ↦ ground (arith, above (omega arith))
        ]
      ]

module _ (max_keys : ℕ) (new_inner : Ptr) (n : Node) (key at : ℕ) (separator : Ptr) (s : IsSorted n)
    (b : IsLowerBound n.keys key 0 n.size at) (fresh : at < n.size → n.keys at ≢ key) where
  pub Holds-IsInnerSplit :
      (left right : Node) (key_up : ℕ)
      → Holds n key at separator left right key_up
      → left.high_key ≡ key_up
      → right.high_key ≡ n.high_key
      → left.right_sibling ≡ new_inner
      → right.right_sibling ≡ n.right_sibling
      → left.size ≤ max_keys
      → right.size ≤ max_keys
      → IsInnerSplit max_keys new_inner n key at separator (left, right, key_up)
  Holds-IsInnerSplit left right key_up h hl hr sl sr ll lr =
      let keys : ℕ → ℕ = insert_at n.keys at key in
      let children : ℕ → Ptr = insert_at n.separators (at + 1) separator in
      record {
        kept_keys =
            ap₂ ◌++◌
              (slice_eq left.keys keys left.size 0 0
                (λ i q. ap left.keys (omega arith) ∙ h.left_keys i q ∙ ap keys (omega arith)))
              (ap₂ ◌∷◌ (h.key_between ∙ ap keys (omega arith)) (
                slice_eq right.keys keys right.size 0 (0 + left.size + 1)
                  (λ i q. ap right.keys (omega arith) ∙ h.right_keys i q ∙ ap keys (omega arith))))
            ∙ sym (slice_split keys left.size (suc right.size) 0)
            ∙ ap (slice keys 0) (omega (arith, h.sizes));
        kept_children =
            ap₂ ◌++◌
              (slice_eq left.separators children (left.size + 1) 0 0 (λ i q.
                ap left.separators (omega arith)
                ∙ h.left_children i (omega arith)
                ∙ ap children (omega arith)))
              (slice_eq right.separators children (right.size + 1) 0 (0 + (left.size + 1)) (λ i q.
                ap right.separators (omega arith)
                ∙ h.right_children i (omega arith)
                ∙ ap children (omega arith)))
            ∙ sym (slice_split children (left.size + 1) (right.size + 1) 0)
            ∙ ap (slice children 0) (omega (arith, h.sizes));
        left_below = λ i q. omega (
          arith,
          h.left_keys i q,
          h.key_between,
          insert_at-sorted n key at s b fresh i left.size q (omega (arith, h.sizes)),
        );
        right_above = λ i q. omega (
          arith,
          h.right_keys i q,
          h.key_between,
          insert_at-sorted n key at s b fresh left.size (left.size + 1 + i) (omega arith)
              (omega (arith, h.sizes)),
        );
        high_left = hl;
        high_right = hr;
        sibling_left = sl;
        sibling_right = sr;
        left_room = ll;
        right_room = lr;
      }
