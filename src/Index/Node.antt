-- ===== src/Index/Node.antt =====
-- db/index/blinktree/node.h: a node of the tree, with keys and values of 64 bits. The arrays of
-- the union are functions of the index; the keys of a leaf and of an inner node begin at the same
-- address and are one field. How many records a node has room for follows from the sizes of the
-- header and the pointers, and is a parameter. What a slot holds that was never written is
-- whatever the function says.
pub mod Search
pub mod Records
pub mod Halves
pub mod Insertion
use mxtasking.Prelude.{
  ℕ, zero, suc, ◌+◌, ◌-◌, ◌*◌, ◌/◌, ◌%◌, ◌^◌, Bool, true, false, ◌==◌, ltb, leb, ◌&&◌, ◌||◌,
  if◌then◌else◌, Option, none, some, add32, sub16,
}
use mxtasking.Resource.Ptr.{Ptr, null_ptr}

-- NodeType; `branch` is Inner | Branch, an inner node whose children are leaves.
pub data NodeType : Type 0 where
  leaf inner branch : NodeType

pub record Node : Type 0 where
  pub node_type : NodeType
  pub high_key : ℕ
  pub right_sibling : Ptr
  pub parent : Ptr
  pub size : ℕ
  pub keys : ℕ → ℕ
  pub values : ℕ → ℕ
  pub separators : ℕ → Ptr

abbrev pub greatest_key : ℕ
greatest_key = 2 ^ 64 - 1

-- The constructor, on memory that holds the arrays already.
abbrev pub create : NodeType → Ptr → (ℕ → ℕ) → (ℕ → ℕ) → (ℕ → Ptr) → Node
create node_type parent keys values separators = record {
  node_type = node_type;
  high_key = greatest_key;
  right_sibling = null_ptr;
  parent = parent;
  size = 0;
  keys = keys;
  values = values;
  separators = separators;
}

abbrev pub is_leaf : Node → Bool
is_leaf n = elim (n.node_type) [ leaf ↦ true | inner ↦ false | branch ↦ false ]

abbrev pub is_inner : Node → Bool
is_inner n = elim (n.node_type) [ leaf ↦ false | inner ↦ true | branch ↦ true ]

abbrev pub is_branch : Node → Bool
is_branch n = elim (n.node_type) [ leaf ↦ false | inner ↦ false | branch ↦ true ]

unfoldable pub full : ℕ → ℕ → Node → Bool
full max_items max_keys n = leb (if is_leaf n then max_items else max_keys) n.size

-- `array[at] = x`
abbrev pub store {ℓ} : {A : Type ℓ} → (ℕ → A) → ℕ → A → ℕ → A
store f at x j = if j == at then x else f j

-- std::memmove and std::memcpy of `count` elements from `source` at `from` to `f` at `to`.
abbrev pub copy {ℓ} : {A : Type ℓ} → (ℕ → A) → ℕ → (ℕ → A) → ℕ → ℕ → ℕ → A
copy f to source from count j =
    if leb to j && ltb j (to + count) then source (j - to + from) else f j

-- std::lower_bound over the `left` keys from the index `i` on.
unfoldable pub lower_bound : (ℕ → ℕ) → ℕ → ℕ → ℕ → ℕ
lower_bound keys key zero i = i
lower_bound keys key (suc left) i =
    let rest = lower_bound keys key left (i + 1) in if ltb (keys i) key then rest else i

unfoldable pub index : Node → ℕ → ℕ
unfolding lower_bound
index n key = lower_bound n.keys key n.size 0

-- A `std::int16_t` is a word of 16 bits; this is its value as an `int`, a word of 32 bits.
abbrev pub int_of : ℕ → ℕ
int_of word = if ltb word (2 ^ 15) then word else word + (2 ^ 32 - 2 ^ 16)

-- `low <= high` on values of `std::int16_t`
abbrev pub signed_leb : ℕ → ℕ → Bool
signed_leb low high = leb ((low + 2 ^ 15) % 2 ^ 16) ((high + 2 ^ 15) % 2 ^ 16)

-- `n >> 1U` on an `int`, which keeps the sign.
abbrev pub half : ℕ → ℕ
half n = if ltb n (2 ^ 31) then n / 2 else n / 2 + 2 ^ 31

-- The loop of `child`, with `fuel` rounds at most, from the variables `low` and `high`: what `high`
-- is at its end; `none` is a loop that still runs. Both variables are values of `std::int16_t`,
-- the argument of `inner_key` is one of `std::uint16_t`.
unfoldable pub child_loop : (ℕ → ℕ) → ℕ → ℕ → ℕ → ℕ → Option ℕ
child_loop keys key zero low high = none
child_loop keys key (suc fuel) low high =
    let mid = half (add32 (int_of low) (int_of high)) in
    let right = child_loop keys key fuel (add32 mid 1 % 2 ^ 16) high in
    let left = child_loop keys key fuel low (add32 mid (2 ^ 32 - 1) % 2 ^ 16) in
    if signed_leb low high
    then (if leb (keys (mid % 2 ^ 16)) key then right else left)
    else some high

-- `child`, with one round more than there are keys.
unfoldable pub child : Node → ℕ → Option Ptr
unfolding child_loop
child n key = elim (child_loop n.keys key (n.size + 1) 0 (sub16 n.size 1)) [
  | none ↦ none
  | some high ↦ some (n.separators (add32 (int_of high) 1))
]

-- `insert(index, separator, key)`
unfoldable pub insert_separator : Node → ℕ → Ptr → ℕ → Node
insert_separator n at separator key =
    let moved = ltb at n.size in
    let offset = n.size - at in
    record n {
      keys = store (if moved then copy n.keys (at + 1) n.keys at offset else n.keys) at key;
      separators =
          store
            (if moved
              then copy n.separators (at + 2) n.separators (at + 1) offset
              else n.separators)
            (at + 1) separator;
      size = (n.size + 1) % 2 ^ 16;
    }

-- `insert(index, value, key)`
unfoldable pub insert_value : Node → ℕ → ℕ → ℕ → Node
insert_value n at value key =
    let moved = ltb at n.size in
    let offset = n.size - at in
    record n {
      keys = store (if moved then copy n.keys (at + 1) n.keys at offset else n.keys) at key;
      values =
          store (if moved then copy n.values (at + 1) n.values at offset else n.values) at value;
      size = (n.size + 1) % 2 ^ 16;
    }

-- `move(destination, from_index, count)`: the destination after it.
unfoldable pub move : Node → Node → ℕ → ℕ → Node
move n destination from_index count =
    if is_leaf n
    then record destination {
      keys = copy destination.keys 0 n.keys from_index count;
      values = copy destination.values 0 n.values from_index count;
    }
    else record destination {
      keys = copy destination.keys 0 n.keys from_index count;
      separators = copy destination.separators 1 n.separators (from_index + 1) count;
    }
