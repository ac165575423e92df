-- ===== src/Index/Check.antt =====
-- db/index/blinktree/node_consistency_checker.h, node_iterator.h and node_statistics.h, and the
-- calls of them in b_link_tree.h. What is printed is a list of errors, with the numbers that the
-- text shows. The last key of a node without keys is the one at the index 65535, as the index of
-- 16 bits wraps around; what is there is whatever the function of the keys says.
pub mod Consistent
pub mod Verdict
use mxtasking.Prelude.{
  ℕ, zero, suc, ◌+◌, ◌-◌, ◌*◌, ◌%◌, ◌^◌, Bool, true, false, not, ◌==◌, ltb, leb, ◌&&◌, ◌||◌,
  if◌then◌else◌, List, [], ◌∷◌, ◌++◌, Option, none, some, sub16, add64,
}
use mxtasking.Resource.Ptr.{Ptr, is_null, null_ptr}
use mxtasking.Index.Node.{Node, is_leaf, is_inner}
use mxtasking.Index.Tree.Tasks.{Nodes, at, BLinkTree}

-- The errors, with the indices and keys that are printed; for the high key, the size, which is one
-- more than the index that is printed.
pub data NodeError : Type 0 where
  bad_high_key : ℕ → ℕ → ℕ → NodeError
  bad_key_order : ℕ → ℕ → ℕ → NodeError
  no_separator : ℕ → NodeError
  bad_child_order : ℕ → ℕ → ℕ → NodeError
  bad_sibling_level : NodeError
  bad_level : ℕ → Bool → NodeError

abbrev pub last_key : Node → ℕ
last_key n = n.keys (sub16 n.size 1)

-- An error is printed when a test says so.
unfoldable pub report : Bool → NodeError → List NodeError
report b e = if b then e ∷ [] else []

-- A loop over the `left` indices from `i` on.
unfoldable pub each : (ℕ → List NodeError) → ℕ → ℕ → List NodeError
each check zero i = []
each check (suc left) i = check i ++ each check left (i + 1)

unfoldable pub check_high_key_valid : Node → List NodeError
unfolding report
check_high_key_valid n =
    report (leb n.high_key (last_key n)) (bad_high_key n.size (last_key n) n.high_key)

unfoldable pub check_key_pair : Node → ℕ → List NodeError
unfolding report
check_key_pair n i =
    report (leb (n.keys i) (n.keys (i - 1))) (bad_key_order i (n.keys (i - 1)) (n.keys i))

unfoldable pub check_key_order_valid : Node → List NodeError
unfolding each check_key_pair
check_key_order_valid n = each (check_key_pair n) (n.size - 1) 1

unfoldable pub check_separator : Node → ℕ → List NodeError
unfolding report
check_separator n i = report (is_null (n.separators i)) (no_separator i)

unfoldable pub check_no_null_separator : Node → List NodeError
unfolding each check_separator
check_no_null_separator n = if is_inner n then each (check_separator n) (n.size + 1) 0 else []

unfoldable pub check_child : Nodes → Node → ℕ → List NodeError
unfolding report
check_child nodes n i =
    let child_last_key = last_key (at nodes (n.separators i)) in
    report (leb (n.keys i) child_last_key) (bad_child_order i (n.keys i) child_last_key)

unfoldable pub check_children_order_valid : Nodes → Node → List NodeError
unfolding each check_child
check_children_order_valid nodes n = if is_inner n then each (check_child nodes n) n.size 0 else []

-- `!=` of two Booleans.
abbrev pub differ : Bool → Bool → Bool
differ true b = not b
differ false b = b

unfoldable pub check_sibling : Nodes → Node → List NodeError
unfolding report
check_sibling nodes n =
    report
      (not (is_null n.right_sibling) && differ (is_leaf n) (is_leaf (at nodes n.right_sibling)))
      (bad_sibling_level)

unfoldable pub check_level : Nodes → Node → ℕ → List NodeError
unfolding report
check_level nodes n i =
    let left = is_leaf (at nodes (n.separators i)) in
    let right = is_leaf (at nodes (n.separators (i + 1))) in
    report (differ left right) (bad_level i left)

unfoldable pub check_level_valid : Nodes → Node → List NodeError
unfolding each check_sibling check_level
check_level_valid nodes n =
    check_sibling nodes n ++ (if is_inner n then each (check_level nodes n) n.size 0 else [])

unfoldable pub check_and_print_errors : Nodes → Node → List NodeError
unfolding check_high_key_valid check_key_order_valid check_no_null_separator
    check_children_order_valid check_level_valid
check_and_print_errors nodes n =
    check_high_key_valid n
    ++ check_key_order_valid n
    ++ check_no_null_separator n
    ++ check_children_order_valid nodes n
    ++ check_level_valid nodes n

-- `contains`; pointers are compared by their addresses.
unfoldable pub contains_from : (ℕ → Ptr) → ℕ → ℕ → ℕ → Bool
contains_from separators zero i separator = false
contains_from separators (suc left) i separator =
    (separators i).object_pointer == separator || contains_from separators left (i + 1) separator

unfoldable pub contains : Node → ℕ → Bool
unfolding contains_from
contains n separator = contains_from n.separators (n.size + 1) 0 separator

-- The loop that finds the index of a child, or one more than the size.
unfoldable pub index_of : (ℕ → Ptr) → ℕ → ℕ → ℕ → ℕ
index_of separators zero i child = i
index_of separators (suc left) i child =
    let rest = index_of separators left (i + 1) child in
    if (separators i).object_pointer == child then i else rest

-- `check_and_print_parent` for the node at an address, with the number of the error that it prints;
-- nothing calls it.
unfoldable pub check_and_print_parent : Nodes → ℕ → Option ℕ
unfolding contains index_of
check_and_print_parent nodes address =
    let n = nodes address in
    let parent = at nodes n.parent in
    let index = index_of parent.separators (parent.size + 1) 0 address in
    if is_null n.parent
    then none
    else if not (contains parent address)
    then some 1
    else if ltb index parent.size
    then (if ltb (last_key n) (parent.keys index) then none else some 2)
    else (if leb (parent.keys (index - 1)) (n.keys 0) then none else some 3)

pub record NodeIterator : Type 0 where
  pub current_node : Ptr
  pub first_node_in_level : Ptr

-- `begin()`
abbrev pub begin : BLinkTree → NodeIterator
begin tree = record { current_node = tree.root; first_node_in_level = tree.root }

-- `operator++`
unfoldable pub next : Nodes → NodeIterator → NodeIterator
next nodes it =
    let n = at nodes it.current_node in
    let below = (at nodes it.first_node_in_level).separators 0 in
    if not (is_null n.right_sibling)
    then record it { current_node = n.right_sibling }
    else if is_inner n
    then record { current_node = below; first_node_in_level = below }
    else record it { current_node = null_ptr }

-- The nodes of a loop over the tree, up to the end of the iteration.
unfoldable pub walk : ℕ → Nodes → NodeIterator → Option (List Ptr)
unfolding next
walk zero nodes it = if is_null it.current_node then some [] else none
walk (suc fuel) nodes it =
    let rest = walk fuel nodes (next nodes it) in
    if is_null it.current_node
    then some []
    else elim rest [ none ↦ none | some ps ↦ some (it.current_node ∷ ps) ]

abbrev pub check_each : Nodes → List Ptr → List NodeError
check_each nodes [] = []
check_each nodes (p ∷ ps) = check_and_print_errors nodes (at nodes p) ++ check_each nodes ps

-- `BLinkTree::check()`
unfoldable pub check : ℕ → BLinkTree → Option (List NodeError)
unfolding walk
check fuel tree = elim (walk fuel tree.nodes (begin tree)) [
  | none ↦ none
  | some ps ↦ some (check_each tree.nodes ps)
]

pub record NodeStatistics : Type 0 where
  pub count_inner_nodes : ℕ
  pub count_leaf_nodes : ℕ
  pub count_inner_node_keys : ℕ
  pub count_leaf_node_keys : ℕ
  pub tree_height : ℕ

abbrev pub count : Bool → ℕ
count b = if b then 1 else 0

-- `operator+=`
unfoldable pub add_node : NodeStatistics → Node → NodeStatistics
add_node s n =
    let counted = record s {
      count_inner_nodes = add64 s.count_inner_nodes (count (is_inner n));
      count_leaf_nodes = add64 s.count_leaf_nodes (count (is_leaf n));
    } in
    if is_leaf n
    then record counted { count_leaf_node_keys = add64 s.count_leaf_node_keys n.size }
    else record counted { count_inner_node_keys = add64 s.count_inner_node_keys n.size }

abbrev pub add_each : Nodes → NodeStatistics → List Ptr → NodeStatistics
add_each nodes s [] = s
add_each nodes s (p ∷ ps) = add_each nodes (add_node s (at nodes p)) ps

-- What `BLinkTree::print_statistics()` prints.
unfoldable pub print_statistics : ℕ → BLinkTree → Option NodeStatistics
unfolding walk add_node
print_statistics fuel tree =
    let empty : NodeStatistics = record {
      count_inner_nodes = 0;
      count_leaf_nodes = 0;
      count_inner_node_keys = 0;
      count_leaf_node_keys = 0;
      tree_height = tree.height;
    } in
    elim (walk fuel tree.nodes (begin tree)) [
      | none ↦ none
      | some ps ↦ some (add_each tree.nodes empty ps)
    ]
