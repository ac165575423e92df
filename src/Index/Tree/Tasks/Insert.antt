-- ===== src/Index/Tree/Tasks/Insert.antt =====
-- What an insertion by insert_value_task.h of db/index/blinktree leaves for lookups.
use mathlib.Core.Path.{subst}
use mxtasking.Prelude.{
  ℕ, ◌+◌, ◌-◌, ◌^◌, ◌≤◌, ◌<◌, ◌≡◌, ◌≢◌, refl, sym, ap, ◌∙◌, false, inl, inr, ◌⊎◌, ◌==◌, ltb, leb,
  ◌&&◌, arith, dec_lt,
}
use mxtasking.Resource.Ptr.{Ptr}
use mxtasking.Index.Node.{Node, index, insert_value, full}
use mxtasking.Index.Node.Search.{IsSorted, IsLowerBound, index-IsLowerBound}
use mxtasking.Index.Node.Records.{
  record_at, insert_value-before, insert_value-at, insert_value-behind, size-insert_value,
}
use mxtasking.Index.Tree.Tasks.{
  Task, found, inserted, ends, Nodes, at, write, lookup, BLinkTree, Fresh, insert,
}
use mxtasking.Index.Tree.Tasks.Lookup.{HasArrived, lookup-found}

at-write : (nodes : Nodes) (p : Ptr) (n : Node) → at (write nodes p n) p ≡ n
at-write nodes p n = ground arith

bound_of : (n : Node) (key : ℕ) → index n key ≤ n.size
bound_of n key = (index-IsLowerBound n key).to

module _ (n : Node) (value key : ℕ) (s : IsSorted n) (room : n.size + 1 < 2 ^ 16)
    (fresh : (i : ℕ) → i < n.size → n.keys i ≢ key) where
  abbrev place : ℕ
  place = index n key

  abbrev bound : IsLowerBound n.keys key 0 n.size place
  bound = index-IsLowerBound n key

  abbrev grown : Node
  grown = insert_value n place value key

  key_cases :
      (i : ℕ)
      → i < n.size + 1
      → ((i < place) × (grown.keys i ≡ n.keys i))
        ⊎ (((i ≡ place) × (grown.keys i ≡ key)) ⊎ ((place < i) × (grown.keys i ≡ n.keys (i - 1))))
  key_cases i h = elim (dec_lt i place) [
    | yes q ↦ inl (q, ap (λ r. r.0) (insert_value-before n place value key bound.to room i q))
    | no q ↦ elim (dec_lt place i) [
      | no r ↦
          let e : i ≡ place = omega arith in
          inr (
            inl (
              e,
              ap grown.keys e ∙ ap (λ r. r.0) (insert_value-at n place value key bound.to room),
            ))
      | yes r ↦
          let e : i ≡ i - 1 + 1 = omega arith in
          inr (
            inr (
              r,
              ap grown.keys e
                  ∙ ap (λ r. r.0)
                      (insert_value-behind n place value key bound.to room (i - 1) (omega arith)
                        (omega arith)),
            ))
    ]
  ]

  above : (j : ℕ) → place ≤ j → j < n.size → key < n.keys j
  above j p q =
      let least : key ≤ n.keys place = bound.above (omega arith) in
      let differs : n.keys place ≢ key = fresh place (omega arith) in
      elim (dec_lt place j) [
        | yes r ↦ omega (arith, s place j r q)
        | no r ↦ let e : place ≡ j = omega arith in omega (arith, ap n.keys e)
      ]

  -- Keys that were sorted stay sorted.
  pub insert_value-IsSorted : IsSorted grown
  insert_value-IsSorted i j p q =
      let inside : j < n.size + 1 =
        omega (arith, size-insert_value n place value key bound.to room) in
      elim (key_cases i (omega arith)) [
        | inl (a, e) ↦ elim (key_cases j inside) [
          | inl (b, g) ↦ omega (arith, s i j p (omega (arith, bound.to)))
          | inr (inl (b, g)) ↦ omega (arith, bound.below i (omega arith) a)
          | inr (inr (b, g)) ↦
              omega
                (arith, bound.below i (omega arith) a, above (j - 1) (omega arith) (omega arith))
        ]
        | inr (inl (a, e)) ↦ elim (key_cases j inside) [
          | inl (b, g) ↦ absurd (omega arith)
          | inr (inl (b, g)) ↦ absurd (omega arith)
          | inr (inr (b, g)) ↦ omega (arith, above (j - 1) (omega arith) (omega arith))
        ]
        | inr (inr (a, e)) ↦ elim (key_cases j inside) [
          | inl (b, g) ↦ absurd (omega arith)
          | inr (inl (b, g)) ↦ absurd (omega arith)
          | inr (inr (b, g)) ↦ omega (arith, s (i - 1) (j - 1) (omega arith) (omega arith))
        ]
      ]

module _ (max_items max_keys : ℕ) (f : Fresh) (tree : BLinkTree) (t : Task) (value : ℕ)
    (arrived : HasArrived tree.nodes t) (writes : t.is_readonly ≡ false)
    (s : IsSorted (at tree.nodes t.node)) (free : (at tree.nodes t.node).size < max_items)
    (bound : max_items < 2 ^ 16)
    (fresh : (i : ℕ)
      → i < (at tree.nodes t.node).size
      → (at tree.nodes t.node).keys i ≢ t.key) where
  abbrev n : Node
  n = at tree.nodes t.node

  abbrev nodes : Nodes
  nodes = write tree.nodes t.node (insert_value n (index n t.key) value t.key)

  room : n.size + 1 < 2 ^ 16
  room = omega arith

  insert-room :
      insert max_items max_keys f tree t value
      ≡ (record tree { nodes = nodes }, ends (inserted t.key value))
  unfolding insert full
  insert-room =
      let b : leb n.high_key t.key ≡ false = ground (arith, arrived.below_high) in
      let no_hit : (ltb (index n t.key) n.size && n.keys (index n t.key) == t.key) ≡ false =
        ground (arith, fresh (index n t.key)) in
      let not_full : leb max_items n.size ≡ false = ground arith in
      rw (b, writes, no_hit, arrived.is_leaf) (rw not_full refl)

  arrived_after : HasArrived nodes t
  unfolding insert_value
  arrived_after = record {
    is_leaf = ap (λ (x : Node). x.node_type) (at-write tree.nodes t.node _) ∙ arrived.is_leaf;
    below_high =
        subst (λ (x : Node). t.key < x.high_key) (sym (at-write tree.nodes t.node _))
          arrived.below_high;
  }

  -- The leaf after the insertion.
  abbrev leaf_after : Node
  leaf_after = insert_value n (index n t.key) value t.key

  leaf_after-IsSorted : IsSorted (at nodes t.node)
  leaf_after-IsSorted =
      subst IsSorted (sym (at-write tree.nodes t.node leaf_after))
        (insert_value-IsSorted n value t.key s room fresh)

  -- A lookup of a key that stands at an index of the leaf after the insertion.
  lookup-after :
      (t' : Task) (i key value' unset : ℕ)
      → t'.node ≡ t.node
      → t'.key ≡ key
      → key < n.high_key
      → i < n.size + 1
      → record_at leaf_after i ≡ (key, value')
      → lookup nodes t' unset ≡ ends (found key value')
  unfolding insert_value
  lookup-after t' i key value' unset same_node same_key below h e =
      let w : at nodes t'.node ≡ leaf_after =
        ap (at nodes) same_node ∙ at-write tree.nodes t.node leaf_after in
      let size : leaf_after.size ≡ n.size + 1 =
        size-insert_value n (index n t.key) value t.key (bound_of n t.key) room in
      let stands : (at nodes t'.node).keys i ≡ t'.key =
        ap (λ (x : Node). x.keys i) w ∙ ap (λ r. r.0) e ∙ sym same_key in
      let is_there : HasArrived nodes t' = record {
        is_leaf = ap (λ (x : Node). x.node_type) w ∙ arrived.is_leaf;
        below_high = subst (λ (x : Node). t'.key < x.high_key) (sym w) (omega arith);
      } in
      lookup-found nodes t' unset i is_there
        (subst IsSorted (ap (at nodes) (sym same_node)) leaf_after-IsSorted)
        (omega (arith, size, ap (λ (x : Node). x.size) w)) stands
      ∙ ap (λ (r : ℕ × ℕ). ends (found r.0 r.1))
          (ap (λ (k : ℕ). (k, (at nodes t'.node).values i)) same_key
            ∙ ap (λ (v : ℕ). (key, v)) (ap (λ (x : Node). x.values i) w ∙ ap (λ r. r.1) e))

-- The lookup of a key at the leaf of another task.
abbrev pub for_key : Task → ℕ → Task
for_key t key = record t { key = key }

-- A writing insertion that has arrived at the leaf of its key, where the leaf has sorted keys and
-- room and does not hold the key, ends and is reported, and a lookup at the leaf then reports the
-- new value, whatever its member held.
pub insert-lookup :
    (max_items max_keys : ℕ) (f : Fresh) (tree : BLinkTree) (t : Task) (value unset : ℕ)
    → HasArrived tree.nodes t
    → t.is_readonly ≡ false
    → IsSorted (at tree.nodes t.node)
    → (at tree.nodes t.node).size < max_items
    → max_items < 2 ^ 16
    → ((i : ℕ) → i < (at tree.nodes t.node).size → (at tree.nodes t.node).keys i ≢ t.key)
    → ((insert max_items max_keys f tree t value).1 ≡ ends (inserted t.key value))
      × (lookup (insert max_items max_keys f tree t value).0.nodes t unset
          ≡ ends (found t.key value))
insert-lookup max_items max_keys f tree t value unset arrived writes s free bound fresh =
    let n : Node = at tree.nodes t.node in
    let p : ℕ = index n t.key in
    let b = bound_of n t.key in
    rw (insert-room max_items max_keys f tree t value arrived writes s free bound fresh) (
      refl,
      lookup-after max_items max_keys f tree t value arrived writes s free bound fresh t p t.key
          value unset refl refl arrived.below_high (omega (arith, b))
          (insert_value-at n p value t.key b (omega arith)),
    )

-- After such an insertion a lookup at the leaf reports, for every record that the leaf held before,
-- with a key below its high key, the value that the record had, whatever its member held.
pub insert-lookup_other :
    (max_items max_keys : ℕ) (f : Fresh) (tree : BLinkTree) (t : Task) (value unset : ℕ)
    → HasArrived tree.nodes t
    → t.is_readonly ≡ false
    → IsSorted (at tree.nodes t.node)
    → (at tree.nodes t.node).size < max_items
    → max_items < 2 ^ 16
    → ((i : ℕ) → i < (at tree.nodes t.node).size → (at tree.nodes t.node).keys i ≢ t.key)
    → (i : ℕ) → i < (at tree.nodes t.node).size
    → (at tree.nodes t.node).keys i < (at tree.nodes t.node).high_key
    → lookup
        (insert max_items max_keys f tree t value).0.nodes
        (for_key t ((at tree.nodes t.node).keys i))
        unset
      ≡ ends (found ((at tree.nodes t.node).keys i) ((at tree.nodes t.node).values i))
insert-lookup_other max_items max_keys f tree t value unset arrived writes s free bound fresh i h
      below =
    let n : Node = at tree.nodes t.node in
    let p : ℕ = index n t.key in
    let b = bound_of n t.key in
    let room : n.size + 1 < 2 ^ 16 = omega arith in
    let after = lookup-after max_items max_keys f tree t value arrived writes s free bound fresh in
    rw (insert-room max_items max_keys f tree t value arrived writes s free bound fresh)
      (elim (dec_lt i p) [
        | yes q ↦
            after (for_key t (n.keys i)) i (n.keys i) (n.values i) unset refl refl below
              (omega arith) (insert_value-before n p value t.key b room i q)
        | no q ↦
            after (for_key t (n.keys i)) (i + 1) (n.keys i) (n.values i) unset refl refl below
              (omega arith) (insert_value-behind n p value t.key b room i (omega arith) h)
      ])
