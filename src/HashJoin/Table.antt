-- ===== src/HashJoin/Table.antt =====
-- application/hashjoin_benchmark/inline_hashtable.h: a table with open addressing, for keys of 32
-- bits and values of 64 bits. The entries behind the header are a function of the slot; `entry` is
-- what `at` refers to. A loop has `fuel` rounds, and `none` says that it still runs.
pub mod Probing
pub mod Usage
pub mod Contents
use Prim.Native.Nat.{bit_and, bit_xor}
use mxtasking.Prelude.{
  ℕ, zero, suc, ◌+◌, ◌-◌, ◌*◌, ◌/◌, ◌%◌, ◌^◌, Bool, true, false, not, ◌&&◌, ◌==◌, if◌then◌else◌,
  Option, none, some, add64, sub64, u32_mod,
}

pub record Entry : Type 0 where
  pub key : ℕ
  pub value : ℕ

abbrev pub greatest_key : ℕ
greatest_key = 2 ^ 32 - 1

abbrev pub greatest_value : ℕ
greatest_value = 2 ^ 64 - 1

-- `Entry{}`
abbrev pub empty_entry : Entry
empty_entry = record { key = greatest_key; value = 0 }

pub record Table : Type 0 where
  pub slots : ℕ
  pub entry : ℕ → Entry

-- `at(slot) = e`
abbrev pub store : (ℕ → Entry) → ℕ → Entry → ℕ → Entry
store entry slot e i = if slot == i then e else entry i

-- The loop of the constructor, for the `left` slots from `i` on.
unfoldable pub clear : (ℕ → Entry) → ℕ → ℕ → ℕ → Entry
clear entry zero i = entry
clear entry (suc left) i = clear (store entry i empty_entry) left (i + 1)

-- The constructor, on memory of `size` bytes; the header has 8 bytes and an entry has 16.
unfoldable pub create : ℕ → (ℕ → Entry) → Table
unfolding clear
create size memory =
    let slots = sub64 size 8 / 16 in record { slots = slots; entry = clear memory slots 0 }

unfoldable pub hash : ℕ → ℕ
hash key0 =
    let key1 = bit_xor key0 (key0 / 2 ^ 16) in
    let key2 = key1 * 2246822507 % u32_mod in
    let key3 = bit_xor key2 (key2 / 2 ^ 13) in
    let key4 = key3 * 3266489909 % u32_mod in bit_xor key4 (key4 / 2 ^ 16)

-- `index &= _slots - 1U`
unfoldable pub mask : Table → ℕ → ℕ
mask t index = bit_and index (sub64 t.slots 1)

unfoldable pub insert_loop : ℕ → Table → ℕ → ℕ → ℕ → Option Table
insert_loop zero t key value index = none
insert_loop (suc fuel) t key value index =
    let slot = mask t index in
    let rest = insert_loop fuel t key value (add64 slot 1) in
    if not ((t.entry slot).key == key) && not ((t.entry slot).key == greatest_key)
    then rest
    else some (record t { entry = store t.entry slot (record { key = key; value = value }) })

unfoldable pub insert : ℕ → Table → ℕ → ℕ → Option Table
unfolding insert_loop hash
insert fuel t key value = insert_loop fuel t key value (hash key)

unfoldable pub get_loop : ℕ → Table → ℕ → ℕ → Option ℕ
get_loop zero t key index = none
get_loop (suc fuel) t key index =
    let slot = mask t index in
    let rest = get_loop fuel t key (add64 slot 1) in
    if (t.entry slot).key == key
    then some (t.entry slot).value
    else if (t.entry slot).key == greatest_key
    then some greatest_value
    else rest

unfoldable pub get : ℕ → Table → ℕ → Option ℕ
unfolding get_loop hash
get fuel t key = get_loop fuel t key (hash key)
