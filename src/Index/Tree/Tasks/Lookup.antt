-- ===== src/Index/Tree/Tasks/Lookup.antt =====
-- What a lookup finds after the other tasks of db/index/blinktree have run on a leaf.
use mxtasking.Prelude.{ℕ, ◌≤◌, ◌<◌, ◌≡◌, ◌∙◌, true, false, ◌==◌, leb, if◌then◌else◌, arith, dec_lt}
use mxtasking.Index.Node.{Node, leaf, index}
use mxtasking.Index.Node.Search.{IsSorted, index-IsLowerBound}
use mxtasking.Index.Tree.Tasks.{Task, found, ends, Nodes, at, lookup}

-- The task has arrived at the leaf of its key.
pub record HasArrived (nodes : Nodes) (t : Task) : Type 0 where
  pub is_leaf : (at nodes t.node).node_type ≡ leaf
  pub below_high : t.key < (at nodes t.node).high_key

lookup-leaf :
    (nodes : Nodes) (t : Task) (unset : ℕ)
    → HasArrived nodes t
    → lookup nodes t unset
      ≡ ends (
          found t.key (
            if (at nodes t.node).keys (index (at nodes t.node) t.key) == t.key
            then (at nodes t.node).values (index (at nodes t.node) t.key)
            else unset))
unfolding lookup
lookup-leaf nodes t unset a =
    let b : leb (at nodes t.node).high_key t.key ≡ false = ground (arith, a.below_high) in
    rw (b, a.is_leaf)

-- An index with the key is the lower bound of the key.
index_unique : (n : Node) (key i : ℕ) → IsSorted n → i < n.size → n.keys i ≡ key → index n key ≡ i
index_unique n key i s h e =
    let b = index-IsLowerBound n key in
    let a : ℕ = index n key in
    let not_less : i ≤ a = elim (dec_lt a i) [
      | yes q ↦ absurd (omega (arith, s a i q h, b.above (omega arith)))
      | no q ↦ omega arith
    ] in
    let not_greater : a ≤ i = elim (dec_lt i a) [
      | yes q ↦ absurd (omega (arith, b.below i (omega arith) q))
      | no q ↦ omega arith
    ] in
    omega arith

-- A lookup at the leaf of its key, with sorted keys, that hold the key, reports the value of the
-- record with the key, whatever its member held.
pub lookup-found :
    (nodes : Nodes) (t : Task) (unset i : ℕ)
    → HasArrived nodes t
    → IsSorted (at nodes t.node)
    → i < (at nodes t.node).size
    → (at nodes t.node).keys i ≡ t.key
    → lookup nodes t unset ≡ ends (found t.key ((at nodes t.node).values i))
lookup-found nodes t unset i a s h e =
    let same_index : index (at nodes t.node) t.key ≡ i =
      index_unique (at nodes t.node) t.key i s h e in
    let hit : ((at nodes t.node).keys i == t.key) ≡ true = ground arith in
    lookup-leaf nodes t unset a ∙ (rw (same_index, hit))

-- A lookup of a key that is greater than every key of its leaf reports the key as found: with the
-- value in the slot behind the last record, if the key stands in that slot, and with what its
-- member held before if not.
pub lookup-behind :
    (nodes : Nodes) (t : Task) (unset : ℕ)
    → HasArrived nodes t
    → ((i : ℕ) → i < (at nodes t.node).size → (at nodes t.node).keys i < t.key)
    → lookup nodes t unset
      ≡ ends (
          found t.key (
            if (at nodes t.node).keys (at nodes t.node).size == t.key
            then (at nodes t.node).values (at nodes t.node).size
            else unset))
lookup-behind nodes t unset a h =
    let n : Node = at nodes t.node in
    let b = index-IsLowerBound n t.key in
    let last : index n t.key ≡ n.size = elim (dec_lt (index n t.key) n.size) [
      | yes q ↦ absurd (omega (arith, b.above q, h (index n t.key) q))
      | no q ↦ omega (arith, b.to)
    ] in
    lookup-leaf nodes t unset a ∙ (rw last)
