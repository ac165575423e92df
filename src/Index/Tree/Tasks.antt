-- ===== src/Index/Tree/Tasks.antt =====
-- db/index/blinktree: the tasks lookup_task.h, update_task.h, insert_value_task.h and
-- insert_separator_task.h. A call of `execute` is a step from the nodes, by their addresses, and
-- the task to the nodes and what comes of the task: it goes on with a new annotation, spawns a
-- successor, or ends with a call of the listener.
pub mod Lookup
pub mod Insert
use mxtasking.Prelude.{
  ℕ, zero, suc, ◌+◌, ◌-◌, ◌/◌, Bool, true, false, not, ◌==◌, ltb, leb, ◌&&◌, if◌then◌else◌, Option,
  none, some, ◌%◌, ◌^◌,
}
use mxtasking.Resource.Ptr.{Ptr, is_null}
use mxtasking.Index.Node.{
  Node, is_leaf, is_inner, is_branch, full, index, child, insert_value, insert_separator, store,
}
use mxtasking.Index.Tree.{Memory, split_leaf, split_inner, new_root}

-- A task of the tree: the node it is annotated with, whether it only reads, and its key.
pub record Task : Type 0 where
  pub node : Ptr
  pub is_readonly : Bool
  pub key : ℕ

-- The listener's calls, with the value where there is one; the core that each call also names is
-- left out.
pub data Result : Type 0 where
  found : ℕ → ℕ → Result
  missing : ℕ → Result
  updated : ℕ → ℕ → Result
  removed : ℕ → Result
  inserted : ℕ → ℕ → Result

-- What comes of a task: it is executed again, an InsertSeparatorTask for a key and a separator
-- follows at a node, it ends, or its search for a child of the node still runs.
pub data Outcome : Type 0 where
  again : Task → Outcome
  separate : Ptr → ℕ → Ptr → Outcome
  ends : Result → Outcome
  searches : Outcome

abbrev pub Nodes : Type 0
Nodes = ℕ → Node

abbrev pub at : Nodes → Ptr → Node
at nodes p = nodes p.object_pointer

abbrev pub write : Nodes → Ptr → Node → Nodes
write nodes p n a = if a == p.object_pointer then n else nodes a

-- The task goes on at the child that was searched for.
abbrev pub goes_on : Task → Option Ptr → Outcome
goes_on t none = searches
goes_on t (some p) = again (record t { node = p })

-- LookupTask, with what its member `_value` holds: the constructor leaves it unset, and only the
-- end of `execute` sets it. The task that ends is destroyed, and the destructor calls `found` with
-- the member in every case.
unfoldable pub lookup : Nodes → Task → ℕ → Outcome
lookup nodes t value =
    let n = at nodes t.node in
    let i = index n t.key in
    if leb n.high_key t.key
    then again (record t { node = n.right_sibling })
    else if is_inner n
    then goes_on t (child n t.key)
    else ends (found t.key (if n.keys i == t.key then n.values i else value))

-- UpdateTask: `missing` is told the key of the leaf.
unfoldable pub update : Nodes → Task → ℕ → Nodes × Outcome
update nodes t value =
    let n = at nodes t.node in
    let i = index n t.key in
    if leb n.high_key t.key
    then (nodes, again (record t { node = n.right_sibling }))
    else if is_inner n
    then (nodes, goes_on (record t { is_readonly = not (is_branch n) }) (child n t.key))
    else if t.is_readonly
    then (nodes, again (record t { is_readonly = false }))
    else if n.keys i == t.key
    then (
      write nodes t.node (record n { values = store n.values i value }),
      ends (updated (n.keys i) value),
    )
    else (nodes, ends (missing (n.keys i)))

-- The tree: its nodes, the root and the height.
pub record BLinkTree : Type 0 where
  pub nodes : Nodes
  pub root : Ptr
  pub height : ℕ

-- The two nodes that a step may create, with what their memory holds.
pub record Fresh : Type 0 where
  pub sibling : Ptr
  pub sibling_memory : Memory
  pub root : Ptr
  pub root_memory : Memory

-- `create_new_root(left, right, key)`
unfoldable pub create_new_root : Fresh → BLinkTree → Ptr → Ptr → ℕ → BLinkTree
create_new_root f tree left right key =
    let root = new_root f.root_memory (is_leaf (at tree.nodes left)) left right key in
    let with_left = write tree.nodes left (record (at tree.nodes left) { parent = f.root }) in
    let with_right = write with_left right (record (at with_left right) { parent = f.root }) in
    record {
      nodes = write with_right f.root root;
      root = f.root;
      height = (tree.height + 1) % 2 ^ 8;
    }

module _ (max_items max_keys : ℕ) where
  -- InsertValueTask
  unfoldable pub insert : Fresh → BLinkTree → Task → ℕ → BLinkTree × Outcome
  insert f tree t value =
      let n = at tree.nodes t.node in
      let i = index n t.key in
      if leb n.high_key t.key
      then (tree, again (record t { node = n.right_sibling }))
      else if is_inner n
      then (tree, goes_on (record t { is_readonly = not (is_branch n) }) (child n t.key))
      else if t.is_readonly
      then (tree, again (record t { is_readonly = false }))
      else if ltb i n.size && n.keys i == t.key
      then (tree, ends (inserted t.key value))
      else if full max_items max_keys n
      then (let (left, right) = split_leaf max_items f.sibling_memory f.sibling n t.key value in
          let nodes = write (write tree.nodes t.node left) f.sibling right in
          let split_tree = record tree { nodes = nodes } in
          if is_null n.parent
          then (
            create_new_root f split_tree t.node f.sibling (right.keys 0),
            ends (inserted t.key value),
          )
          else (split_tree, separate n.parent (right.keys 0) f.sibling))
      else (
        record tree { nodes = write tree.nodes t.node (insert_value n i value t.key) },
        ends (inserted t.key value),
      )

  -- InsertSeparatorTask: the children that move to the new node get it as their parent.
  adopt : Ptr → (ℕ → Ptr) → ℕ → Nodes → Nodes
  adopt parent separators zero nodes = nodes
  adopt parent separators (suc left) nodes =
      let before = adopt parent separators left nodes in
      write before (separators left) (record (at before (separators left)) { parent = parent })

  unfoldable pub separate_at : Fresh → BLinkTree → Ptr → ℕ → Ptr → BLinkTree × Outcome
  unfolding adopt
  separate_at f tree node key separator =
      let n = at tree.nodes node in
      if leb n.high_key key
      then (tree, separate n.right_sibling key separator)
      else if full max_items max_keys n
      then (let (left, right, key_up) =
            split_inner max_keys f.sibling_memory f.sibling n key separator in
          let first =
            if ltb key (n.keys (max_keys / 2 - 1))
            then write tree.nodes separator (record (at tree.nodes separator) { parent = node })
            else tree.nodes in
          let nodes = write (write first node left) f.sibling right in
          let split_tree = record tree {
            nodes = adopt f.sibling right.separators (right.size + 1) nodes;
          } in
          if is_null n.parent
          then (create_new_root f split_tree node f.sibling key_up, ends (inserted key 0))
          else (split_tree, separate n.parent key_up f.sibling))
      else let nodes = write tree.nodes node (insert_separator n (index n key) separator key) in
        (
          record tree {
            nodes = write nodes separator (record (at nodes separator) { parent = node });
          },
          ends (inserted key 0),
        )
