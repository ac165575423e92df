-- ===== src/Index/Tests.antt =====
-- A leaf and an inner node of db/index/blinktree, at which the theorems on them are applied.
use mxtasking.Prelude.{
  ℕ, ◌+◌, ◌*◌, ◌/◌, ◌-◌, ◌==◌, if◌then◌else◌, ◌<◌, ◌≡◌, ◌≢◌, ◌⊎◌, refl, false, arith, [], ◌∷◌, some,
}
use mxtasking.Resource.Ptr.{Ptr, null_ptr}
use mxtasking.Index.Node.{Node, leaf, branch, create, child, index}
use mxtasking.Index.Node.Search.{IsSorted, IsChild, child-IsChild}
use mxtasking.Index.Tree.{Memory, split_leaf, split_inner}
use mxtasking.Index.Tree.SplitInner.Order.{IsInnerSplit}
use mxtasking.Index.Tree.SplitInner.Branches.{split_inner-IsInnerSplit}
use mxtasking.Index.Tree.Tasks.{Nodes}
use mxtasking.Index.Check.{
  bad_child_order, bad_high_key, bad_key_order, check_and_print_errors, each, report,
  check_key_pair, check_high_key_valid, check_key_order_valid, check_no_null_separator,
  check_children_order_valid, check_level_valid, check_separator, check_child, check_level,
  check_sibling, walk, begin, next,
}
use mxtasking.Index.Check.Consistent.{IsConsistent}
use mxtasking.Index.Check.Verdict.{check-IsConsistent}
use mxtasking.Index.Tree.Split.{IsSplit, with_record, split_leaf-IsSplit}
use mxtasking.Index.Tree.Tasks.{Task, found, inserted, ends, lookup, BLinkTree, Fresh, insert}
use mxtasking.Index.Tree.Tasks.Lookup.{HasArrived, lookup-found, lookup-behind}
use mxtasking.Index.Tree.Tasks.Insert.{for_key, insert-lookup, insert-lookup_other}

abbrev address : ℕ → Ptr
address a = record null_ptr { object_pointer = a }

abbrev memory : Memory
memory = record { keys = λ _. 0; values = λ _. 0; separators = λ _. null_ptr }

-- The keys 10 and 20; the memory behind them holds 30, 40, and so on.
abbrev two_records : Node
two_records = record (create leaf null_ptr (λ i. (i + 1) * 10) (λ i. i + 7) (λ _. null_ptr)) {
  size = 2;
}

two_records-IsSorted : IsSorted two_records
two_records-IsSorted i j p q = omega arith

two_records-without : (i : ℕ) → i < 2 → two_records.keys i ≢ 15
two_records-without i h = omega arith

split_leaf-IsSplit_example :
    IsSplit 2 two_records
      (with_record two_records (index two_records 15) 15 99)
      (split_leaf 2 memory (address 4096) two_records 15 99)
split_leaf-IsSplit_example =
    split_leaf-IsSplit 2 memory (address 4096) two_records 15 99 refl (omega arith) (omega arith)
      refl two_records-IsSorted two_records-without

abbrev three_children : Node
three_children = record two_records { node_type = branch; separators = λ i. address (64 * i + 64) }

child-IsChild_example :
    (i : ℕ) × (child three_children 15 ≡ some (three_children.separators i))
    × IsChild three_children.keys 15 2 i
child-IsChild_example = child-IsChild three_children 15 two_records-IsSorted (omega arith)

abbrev tree : BLinkTree
tree = record { nodes = λ _. two_records; root = address 64; height = 1 }

abbrev new_nodes : Fresh
new_nodes = record {
  sibling = address 4096;
  sibling_memory = memory;
  root = address 8192;
  root_memory = memory;
}

abbrev task : Task
task = record { node = address 64; is_readonly = false; key = 15 }

arrived : HasArrived tree.nodes task
arrived = record { is_leaf = refl; below_high = omega arith }

insert-lookup_example :
    ((insert 4 4 new_nodes tree task 99).1 ≡ ends (inserted 15 99))
    × (lookup (insert 4 4 new_nodes tree task 99).0.nodes task 0 ≡ ends (found 15 99))
insert-lookup_example =
    insert-lookup 4 4 new_nodes tree task 99 0 arrived refl two_records-IsSorted (omega arith)
      (omega arith) two_records-without

insert-lookup_other_example :
    lookup (insert 4 4 new_nodes tree task 99).0.nodes (for_key task 20) 0 ≡ ends (found 20 8)
insert-lookup_other_example =
    insert-lookup_other 4 4 new_nodes tree task 99 0 arrived refl two_records-IsSorted (omega arith)
      (omega arith) two_records-without 1 (omega arith) (omega arith)

arrived_at : (key : ℕ) → key < 100 → HasArrived tree.nodes (for_key task key)
arrived_at key h = record { is_leaf = refl; below_high = omega arith }

lookup-found_example : lookup tree.nodes (for_key task 20) 0 ≡ ends (found 20 8)
lookup-found_example =
    lookup-found tree.nodes (for_key task 20) 0 1 (arrived_at 20 (omega arith)) two_records-IsSorted
      (omega arith) refl

-- The key 15 is not in the leaf; the listener is told that it is found, with the unset value.
lookup_absent : lookup tree.nodes (for_key task 15) 77 ≡ ends (found 15 77)
unfolding lookup index
lookup_absent = refl

-- The memory behind the last record holds the key 30, which was never inserted.
lookup-behind_example : lookup tree.nodes (for_key task 30) 0 ≡ ends (found 30 9)
lookup-behind_example =
    lookup-behind tree.nodes (for_key task 30) 0 (arrived_at 30 (omega arith)) (λ i h. omega arith)

split_inner-IsInnerSplit_example :
    IsInnerSplit 2
      (address 8192)
      three_children
      15
      (index three_children 15)
      (address 512)
      (split_inner 2 memory (address 8192) three_children 15 (address 512))
split_inner-IsInnerSplit_example =
    split_inner-IsInnerSplit 2 memory (address 8192) three_children 15 (address 512) refl
      (omega arith) (omega arith) refl two_records-IsSorted two_records-without

-- The leaf at the address 64 i holds the keys 10 i - 9 and 10 i - 8.
abbrev leaves : Nodes
leaves a = record two_records { keys = λ i. a / 64 * 10 - 9 + i }

-- Without its keys in order, and without a high key above them.
abbrev broken : Node
broken = record two_records { keys = λ i. 20 - i; high_key = 19 }

broken-errors :
    check_and_print_errors leaves broken ≡ bad_high_key 2 19 19 ∷ bad_key_order 1 20 19 ∷ []
unfolding check_and_print_errors check_high_key_valid check_key_order_valid check_no_null_separator
    check_children_order_valid check_level_valid each check_key_pair check_sibling report
broken-errors = refl

three_children-errors : check_and_print_errors leaves three_children ≡ []
unfolding check_and_print_errors check_high_key_valid check_key_order_valid check_no_null_separator
    check_children_order_valid check_level_valid each check_key_pair check_sibling report
    check_separator check_child check_level
three_children-errors = refl

-- The third leaf, whose last key is 22, does not end below the key 20.
swapped_children-errors :
    check_and_print_errors leaves
      (record three_children { separators = λ i. address (64 * i + 128) })
    ≡ bad_child_order 0 10 12 ∷ bad_child_order 1 20 22 ∷ []
unfolding check_and_print_errors check_high_key_valid check_key_order_valid check_no_null_separator
    check_children_order_valid check_level_valid each check_key_pair check_sibling report
    check_separator check_child check_level
swapped_children-errors = refl

check-IsConsistent_example :
    ((check_and_print_errors leaves three_children ≡ []) × IsConsistent leaves three_children)
    ⊎ ((check_and_print_errors leaves three_children ≢ []) × (¬ IsConsistent leaves three_children))
check-IsConsistent_example = check-IsConsistent leaves three_children (omega arith) (omega arith)

-- The iteration over a tree of one inner node and its leaves.
abbrev linked : Nodes
linked a =
    if a == 4096
    then three_children
    else record (leaves a) { right_sibling = if a == 192 then null_ptr else address (a + 64) }

linked-walk :
    walk 5 linked (begin (record { nodes = linked; root = address 4096; height = 2 }))
    ≡ some (address 4096 ∷ address 64 ∷ address 128 ∷ address 192 ∷ [])
unfolding walk next
linked-walk = refl
