-- ===== src/HashJoin/Partition.antt =====
-- application/hashjoin_benchmark/partition_task.h: the task that distributes a chunk of a table to
-- the cores. `std_hash` is std::hash; the runtime's `new_task` gives a task without rows, and
-- `spawn` is recorded as an event. A task for a core is annotated with that core's hash table and
-- is its number here.
pub mod Rows
use mxtasking.Prelude.{
  ℕ, zero, suc, ◌+◌, ◌*◌, ◌%◌, ◌^◌, ◌≤◌, ◌<◌, ◌≡◌, refl, sym, ap, ◌∙◌, List, [], ◌∷◌, ◌++◌, Bool,
  true, false, ◌==◌, if◌then◌else◌, Bool-cases, inl, inr, length, arith, add64, u64_mod, append-nil,
  append_assoc, length-append, ℕ_discrete, ltb, add32, Option, none, some,
}
use mathlib.Core.Option
use mxtasking.HashJoin.Join.{emplace_back}

pub data Event : Type 0 where
  spawns : ℕ → List (ℕ × ℕ) → Event
  notifies : ℕ → Event

-- The rows of the open tasks, and what was spawned.
pub record State : Type 0 where
  pub tasks : ℕ → List (ℕ × ℕ)
  pub spawned : List Event

abbrev pub write : (ℕ → List (ℕ × ℕ)) → ℕ → List (ℕ × ℕ) → ℕ → List (ℕ × ℕ)
write tasks target keys i = if target == i then keys else tasks i

unfoldable pub target_of : (ℕ → ℕ) → ℕ → ℕ → ℕ
target_of std_hash count_cores key = std_hash key % 2 ^ 16 % count_cores

-- One round of the loop over the chunk.
unfoldable pub distribute : (ℕ → ℕ) → ℕ → ℕ → State → ℕ → ℕ → State
distribute std_hash count_cores batch_size s row_id key =
    let target = target_of std_hash count_cores key in
    let keys = emplace_back (s.tasks target) row_id key in
    if length keys == batch_size
    then record { tasks = write s.tasks target []; spawned = s.spawned ++ spawns target keys ∷ [] }
    else record s { tasks = write s.tasks target keys }

-- The loop, from the index `data_index` on, with `fuel` rounds at most. The index is a word of 32
-- bits and the number of keys one of 64; `none` is a loop that still runs.
unfoldable pub distribute_all : (ℕ → ℕ) → ℕ → ℕ → (ℕ → ℕ) → ℕ → ℕ → ℕ → ℕ → State → Option State
unfolding distribute
distribute_all std_hash count_cores batch_size chunk count offset zero data_index s = none
distribute_all std_hash count_cores batch_size chunk count offset (suc fuel) data_index s =
    let rest =
      distribute_all std_hash count_cores batch_size chunk count offset fuel (add32 data_index 1) (
        distribute std_hash count_cores batch_size s (add64 offset data_index)
          (chunk data_index)) in
    if ltb data_index count then rest else some s

-- The last loop, for the `left` cores from `target` on.
unfoldable pub flush : (ℕ → List (ℕ × ℕ)) → ℕ → ℕ → List Event
flush tasks zero target = []
flush tasks (suc left) target =
    spawns target (tasks target) ∷ notifies target ∷ flush tasks left (target + 1)

-- `execute`, on the channel `channel_id`, with `fuel` rounds of the loop at most: everything that it
-- spawns, when it ends. The chunk is an array of `count` keys.
unfoldable pub execute : (ℕ → ℕ) → ℕ → ℕ → ℕ → ℕ → (ℕ → ℕ) → ℕ → Option (List Event)
unfolding distribute_all flush
execute std_hash count_cores batch_size fuel channel_id chunk count =
    let distributed =
      distribute_all std_hash count_cores batch_size chunk count (channel_id * count % u64_mod) fuel
        0 (record { tasks = λ _. []; spawned = [] }) in
    Option.map (λ s. s.spawned ++ flush s.tasks count_cores 0) distributed
