-- ===== src/Index/Tree/Split.antt =====
-- What the split of a leaf of db/index/blinktree/b_link_tree.h leaves in the two leaves.
use mathlib.Core.Path.{ap₂}
use mxtasking.Prelude.{
  ℕ, zero, suc, ◌+◌, ◌-◌, ◌/◌, ◌^◌, ◌≤◌, ◌<◌, ◌≡◌, ◌≢◌, refl, sym, ap, ◌∙◌, List, ◌∷◌, ◌++◌,
  append_assoc, Bool-cases, inl, inr, ltb, if◌then◌else◌, arith, dec_lt,
}
use mxtasking.Resource.Ptr.{Ptr, null_ptr, is_null}
use mxtasking.Index.Node.{Node, leaf, index, insert_value, move}
use mxtasking.Index.Node.Search.{IsSorted, IsLowerBound, index-IsLowerBound}
use mxtasking.Index.Node.Halves.{index-left, index-right}
use mxtasking.Index.Node.Records.{
  slice, slice_eq, slice_split, record_at, records, records-insert_value, insert_value-before,
  size-insert_value, insert_value-keys, slice_join, high_key-insert_value,
}
use mxtasking.Index.Tree.{Memory, split_leaf, create_leaf_node}

-- The records with a new one before those at the index `at`.
abbrev pub with_record : Node → ℕ → ℕ → ℕ → List (ℕ × ℕ)
with_record n at key value =
    slice (record_at n) 0 at ++ (key, value) ∷ slice (record_at n) at (n.size - at)

-- Equal records in two leaves.
slice_same :
    (x y : Node)
    → ((i : ℕ) → record_at x i ≡ record_at y i)
    → (a b c d : ℕ) → a ≡ b
    → c ≡ d
    → slice (record_at x) a c ≡ slice (record_at y) b d
slice_same x y h a b c d p q =
    slice_eq (record_at x) (record_at y) c a b (λ i l. ap (λ e. record_at x (e + i)) p ∙ h (b + i))
    ∙ ap (slice (record_at y) b) q

-- The leaves after a split: together they hold the records of the old leaf and the new one, the
-- high key of the left leaf separates them, and neither is full of more than it has room for.
pub record IsSplit (max_items : ℕ) (n : Node) (all : List (ℕ × ℕ)) (out : Node × Node)
    : Type 0 where
  pub kept : records out.0 ++ records out.1 ≡ all
  pub left_below : (i : ℕ) → i < out.0.size → out.0.keys i < out.0.high_key
  pub right_above : (i : ℕ) → i < out.1.size → out.0.high_key ≤ out.1.keys i
  pub high_kept : out.1.high_key ≡ n.high_key
  pub left_room : out.0.size ≤ max_items
  pub right_room : out.1.size ≤ max_items

module _ (max_items : ℕ) (m : Memory) (new_leaf : Ptr) (n : Node) (key value at : ℕ)
    (is_leaf : n.node_type ≡ leaf) (two : 2 ≤ max_items) (bound : max_items + 1 < 2 ^ 16)
    (is_full : n.size ≡ max_items) (s : IsSorted n) (b : IsLowerBound n.keys key 0 n.size at)
    (fresh : at < n.size → n.keys at ≢ key) where
  abbrev half : ℕ
  half = max_items / 2

  abbrev rest : ℕ
  rest = max_items - half

  -- A right leaf that holds the records from the middle on.
  record IsRight (right : Node) : Type 0 where
    moved_keys : (i : ℕ) → i < rest → right.keys i ≡ n.keys (half + i)
    moved : (i : ℕ) → i < rest → record_at right i ≡ record_at n (half + i)
    filled : right.size ≡ rest
    bounded : right.high_key ≡ n.high_key

  -- A left leaf that holds those before the middle.
  record IsLeft (left : Node) : Type 0 where
    held_keys : (i : ℕ) → left.keys i ≡ n.keys i
    held : (i : ℕ) → record_at left i ≡ record_at n i
    halved : left.size ≡ half

  below_middle : (i : ℕ) → i < half → n.keys i < n.keys half
  below_middle i h = s i half h (omega arith)

  above_middle : (i : ℕ) → i < rest → n.keys half ≤ n.keys (half + i)
  above_middle zero h = omega (arith, ap n.keys (let e : half + 0 ≡ half = omega arith in e))
  above_middle (suc i) h = omega (arith, s half (half + suc i) (omega arith) (omega arith))

  -- The key belongs to the left leaf.
  into_left-IsSplit :
      (left right : Node)
      → IsLeft left
      → IsRight right
      → key < right.keys 0
      → IsSplit max_items n
          (with_record n at key value)
          (record (insert_value left (index left key) value key) { high_key = right.keys 0 }, right)
  into_left-IsSplit left right l r h =
      let middle : right.keys 0 ≡ n.keys half =
        r.moved_keys 0 (omega arith) ∙ ap n.keys (let e : half + 0 ≡ half = omega arith in e) in
      let small : left.size < n.size = omega (arith, l.halved) in
      let up : key < n.keys left.size = omega (arith, ap n.keys l.halved) in
      let (found, inside) = index-left n at key s b left l.held_keys small up in
      let a : ℕ = index left key in
      let fits : a ≤ left.size = omega arith in
      let room : left.size + 1 < 2 ^ 16 = omega arith in
      record {
        kept =
            ap₂ ◌++◌
              (records-insert_value left a value key fits room
                ∙ ap₂ (λ (xs ys : List (ℕ × ℕ)). xs ++ (key, value) ∷ ys)
                    (slice_same left n l.held 0 0 a at refl found)
                    (slice_same left n l.held a at (left.size - a) (half - at) found
                      (omega (arith, l.halved))))
              (ap (slice (record_at right) 0) r.filled
                ∙ slice_eq (record_at right) (record_at n) rest 0 half (λ i q.
                  ap (record_at right) (let e : 0 + i ≡ i = omega arith in e) ∙ r.moved i q))
            ∙ append_assoc (slice (record_at n) 0 at)
                ((key, value) ∷ slice (record_at n) at (half - at)) _
            ∙ ap (λ (ys : List (ℕ × ℕ)). slice (record_at n) 0 at ++ (key, value) ∷ ys)
                (ap (λ c. slice (record_at n) at (half - at) ++ slice (record_at n) c rest)
                    (let e : half ≡ at + (half - at) = omega (arith, l.halved) in e)
                  ∙ sym (slice_split (record_at n) (half - at) rest at)
                  ∙ ap (slice (record_at n) at) (omega (arith, l.halved)));
        left_below =
            insert_value-keys left a value key fits room (λ k. k < right.keys 0)
              (λ i q. omega (arith, l.held_keys i, below_middle i (omega (arith, l.halved)))) h;
        right_above = λ i q. omega (
          arith,
          r.moved_keys i (omega (arith, r.filled)),
          above_middle i (omega (arith, r.filled)),
        );
        high_kept = r.bounded;
        left_room = omega (arith, size-insert_value left a value key fits room, l.halved);
        right_room = omega (arith, r.filled);
      }

  right_slice :
      (right : Node)
      → IsRight right
      → (a c : ℕ) → a + c ≤ rest
      → slice (record_at right) a c ≡ slice (record_at n) (half + a) c
  right_slice right r a c h = slice_eq (record_at right) (record_at n) c a (half + a) (λ i q.
      r.moved (a + i) (omega arith)
      ∙ ap (record_at n) (let e : half + (a + i) ≡ half + a + i = omega arith in e))

  middle-lt : n.keys half ≤ key → n.keys half < key
  middle-lt h = elim (dec_lt (n.keys half) key) [
    | yes q ↦ q
    | no q ↦ elim (dec_lt half at) [
      | yes t ↦ absurd (omega (arith, b.below half (omega arith) t))
      | no t ↦ elim (dec_lt at half) [
        | yes u ↦ absurd (omega (arith, s at half u (omega arith), b.above (omega arith)))
        | no u ↦
            let e : half ≡ at = omega arith in
            absurd (fresh (omega arith) (omega (arith, ap n.keys e)))
      ]
    ]
  ]

  -- The key belongs to the right leaf.
  into_right-IsSplit :
      (left right : Node)
      → IsLeft left
      → IsRight right
      → right.keys 0 ≤ key
      → IsSplit max_items n (with_record n at key value) (
        record left { high_key = (insert_value right (index right key) value key).keys 0 },
        insert_value right (index right key) value key,
      )
  into_right-IsSplit left right l r h =
      let middle : right.keys 0 ≡ n.keys half =
        r.moved_keys 0 (omega arith) ∙ ap n.keys (let e : half + 0 ≡ half = omega arith in e) in
      let above : n.keys half < key = middle-lt (omega arith) in
      let a : ℕ = index right key in
      let found : half + a ≡ at =
        index-right n at key s b right half (λ i q. r.moved_keys i (omega (arith, r.filled)))
          (omega (arith, r.filled)) (omega arith) above in
      let fits : a ≤ right.size = omega (arith, r.filled, b.to) in
      let room : right.size + 1 < 2 ^ 16 = omega (arith, r.filled) in
      let behind : 0 < a = elim (dec_lt 0 a) [
        | yes q ↦ q
        | no q ↦
            absurd (
              omega
                (arith, b.above (omega arith), ap n.keys (let e : at ≡ half = omega arith in e)))
      ] in
      let first : (insert_value right a value key).keys 0 ≡ n.keys half =
        ap (λ e. e.0) (insert_value-before right a value key fits room 0 behind) ∙ middle in
      record {
        kept =
            ap₂ ◌++◌ (slice_same left n l.held 0 0 left.size half refl l.halved) (
              records-insert_value right a value key fits room
              ∙ ap₂ (λ (xs ys : List (ℕ × ℕ)). xs ++ (key, value) ∷ ys)
                  (right_slice right r 0 a (omega (arith, r.filled))
                    ∙ ap (λ c. slice (record_at n) c a)
                        (let e : half + 0 ≡ half = omega arith in e))
                  (right_slice right r a (right.size - a) (omega (arith, r.filled))
                    ∙ ap₂ (slice (record_at n)) found (omega (arith, r.filled))))
            ∙ sym (append_assoc (slice (record_at n) 0 half) (slice (record_at n) half a) _)
            ∙ ap (λ (xs : List (ℕ × ℕ)). xs ++ (key, value) ∷ slice (record_at n) at (n.size - at))
                (slice_join (record_at n) half a ∙ ap (slice (record_at n) 0) found);
        left_below =
            λ i q. omega (arith, first, l.held_keys i, below_middle i (omega (arith, l.halved)));
        right_above =
            insert_value-keys right a value key fits room
              (λ k. (insert_value right a value key).keys 0 ≤ k)
              (λ i q. omega (
                arith,
                first,
                r.moved_keys i (omega (arith, r.filled)),
                above_middle i (omega (arith, r.filled)),
              ))
              (omega (arith, first));
        high_kept = high_key-insert_value right a value key fits room ∙ r.bounded;
        left_room = omega (arith, l.halved);
        right_room = omega (arith, size-insert_value right a value key fits room, r.filled);
      }

  -- The two leaves before the insertion.
  abbrev kept_left : Node
  kept_left = record n { size = half; right_sibling = new_leaf }

  kept_left-IsLeft : IsLeft kept_left
  kept_left-IsLeft = record { held_keys = λ i. refl; held = λ i. refl; halved = refl }

  abbrev new_right : Node
  new_right = record (move n (create_leaf_node m n.parent) half rest) {
    right_sibling = if is_null n.right_sibling then null_ptr else n.right_sibling;
    high_key = n.high_key;
    size = rest;
  }

  new_right-IsRight : IsRight new_right
  unfolding move
  new_right-IsRight = record {
    moved_keys = keys_moved;
    moved = λ i h. ap₂ (λ a b. (a, b)) (keys_moved i h) (values_moved i h);
    filled = refl;
    bounded = refl;
  }
    where
      keys_moved : (i : ℕ) → i < rest → new_right.keys i ≡ n.keys (half + i)
      keys_moved i h =
          let e : i - 0 + half ≡ half + i = omega arith in rw is_leaf (ground (arith, ap n.keys e))

      values_moved : (i : ℕ) → i < rest → new_right.values i ≡ n.values (half + i)
      values_moved i h =
          let e : i - 0 + half ≡ half + i = omega arith in
          rw is_leaf (ground (arith, ap n.values e))

  halves-IsSplit :
      IsSplit max_items n (with_record n at key value) (split_leaf max_items m new_leaf n key value)
  unfolding split_leaf move
  halves-IsSplit = elim (Bool-cases (ltb key (new_right.keys 0))) [
    | inl e ↦
        rw e
          (into_left-IsSplit kept_left new_right kept_left-IsLeft new_right-IsRight (ground arith))
    | inr e ↦
        rw e
          (into_right-IsSplit kept_left new_right kept_left-IsLeft new_right-IsRight (ground arith))
  ]

-- A full leaf with sorted keys and room for at least two records, when a key that it does not
-- hold is inserted, is split into two leaves that together hold its records and the new one, in
-- the order of the keys. The keys of the left leaf are below its new high key, those of the
-- right leaf are not, the right leaf takes over the old high key, and neither leaf holds more
-- than it has room for.
pub split_leaf-IsSplit :
    (max_items : ℕ) (m : Memory) (new_leaf : Ptr) (n : Node) (key value : ℕ)
    → n.node_type ≡ leaf
    → 2 ≤ max_items
    → max_items + 1 < 2 ^ 16
    → n.size ≡ max_items
    → IsSorted n
    → ((i : ℕ) → i < n.size → n.keys i ≢ key)
    → IsSplit max_items n
        (with_record n (index n key) key value)
        (split_leaf max_items m new_leaf n key value)
split_leaf-IsSplit max_items m new_leaf n key value t two bound is_full s fresh =
    halves-IsSplit max_items m new_leaf n key value (index n key) t two bound is_full s
      (index-IsLowerBound n key) (fresh (index n key))
