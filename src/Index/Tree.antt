-- ===== src/Index/Tree.antt =====
-- db/index/blinktree/b_link_tree.h: creation and splits of nodes. Memory and the resource builder
-- give a new node's pointer and what its arrays hold; both are arguments. `max_items` and
-- `max_keys` are the capacities of leaves and of inner nodes.
pub mod Split
pub mod SplitInner
pub mod Tasks
use mxtasking.Prelude.{ℕ, zero, suc, ◌+◌, ◌-◌, ◌/◌, ◌%◌, ◌^◌, Bool, true, false, ltb, if◌then◌else◌}
use mxtasking.Sync.Primitive.{
  AccessFrequency, excessive, high, normal, ReadWriteRatio, heavy_read, balanced,
}
use mxtasking.Resource.Ptr.{Ptr, is_null, null_ptr}
use mxtasking.Index.Node.{
  Node, NodeType, leaf, inner, branch, is_branch, is_leaf, create, index, insert_value,
  insert_separator, move, store,
}

unfoldable pub predict_access_frequency : Bool → Bool → AccessFrequency
predict_access_frequency is_inner is_root =
    if is_root then excessive else (if is_inner then high else normal)

unfoldable pub predict_read_write_ratio : Bool → ReadWriteRatio
predict_read_write_ratio is_inner = if is_inner then heavy_read else balanced

-- What a new node's memory holds before anything is written to it.
pub record Memory : Type 0 where
  pub keys : ℕ → ℕ
  pub values : ℕ → ℕ
  pub separators : ℕ → Ptr

abbrev pub create_leaf_node : Memory → Ptr → Node
create_leaf_node m parent = create leaf parent m.keys m.values m.separators

abbrev pub create_inner_node : Memory → Bool → Ptr → Node
create_inner_node m is_branch parent =
    create (if is_branch then branch else inner) parent m.keys m.values m.separators

-- `split` of a leaf: the leaf and the new leaf behind it. The pair that it returns is `new_leaf`
-- and the first key of the new leaf.
unfoldable pub split_leaf : ℕ → Memory → Ptr → Node → ℕ → ℕ → Node × Node
split_leaf max_items m new_leaf n key value =
    let left_size = max_items / 2 in
    let right_size = max_items - left_size in
    let moved = move n (create_leaf_node m n.parent) left_size right_size in
    let right = record moved {
      right_sibling = if is_null n.right_sibling then null_ptr else n.right_sibling;
      high_key = n.high_key;
      size = right_size;
    } in
    let left = record n { size = left_size; right_sibling = new_leaf } in
    if ltb key (right.keys 0)
    then (record (insert_value left (index left key) value key) { high_key = right.keys 0 }, right)
    else let right' = insert_value right (index right key) value key in
      (record left { high_key = right'.keys 0 }, right')

-- `split` of an inner node: the node, the new node behind it and the key for the parent. The
-- children of the new node get it as their parent; that of `separator` in the first branch is the
-- old node.
unfoldable pub split_inner : ℕ → Memory → Ptr → Node → ℕ → Ptr → Node × Node × ℕ
split_inner max_keys m new_inner n key separator =
    let left_size = max_keys / 2 in
    let right_size = max_keys - left_size in
    let new = record (create_inner_node m (is_branch n) n.parent) {
      high_key = n.high_key;
      right_sibling = n.right_sibling;
    } in
    if ltb key (n.keys (left_size - 1))
    then (let moved = move n new left_size right_size in
        let right = record moved {
          separators = store moved.separators 0 (n.separators left_size);
          size = right_size;
        } in
        let left = record n { size = left_size - 1 } in
        let key_up = n.keys (left_size - 1) in
        (
          record (insert_separator left (index left key) separator key) {
            right_sibling = new_inner;
            high_key = key_up;
          },
          right,
          key_up,
        ))
    else if ltb key (n.keys left_size)
    then (let moved = move n new left_size right_size in
        (
          record n { size = left_size; right_sibling = new_inner; high_key = key },
          record moved { separators = store moved.separators 0 separator; size = right_size },
          key,
        ))
    else (let moved = move n new (left_size + 1) (right_size - 1) in
        let right = record moved {
          separators = store moved.separators 0 (n.separators (left_size + 1));
          size = right_size - 1;
        } in
        let key_up = n.keys left_size in
        (
          record n { size = left_size; right_sibling = new_inner; high_key = key_up },
          insert_separator right (index right key) separator key,
          key_up,
        ))

-- The node that `create_new_root` makes, for children that are leaves or not.
unfoldable pub new_root : Memory → Bool → Ptr → Ptr → ℕ → Node
new_root m left_is_leaf left right key =
    let root = create_inner_node m left_is_leaf null_ptr in
    insert_separator (record root { separators = store root.separators 0 left }) 0 right key
