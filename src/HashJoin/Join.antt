-- ===== src/HashJoin/Join.antt =====
-- application/hashjoin_benchmark/build_task.h, probe_task.h and merge_task.h: the tasks that fill
-- the hash table of one core, probe it, and count the result. A row is its id and its key.
pub mod Correct
use mxtasking.Prelude.{
  ℕ, ◌+◌, List, [], ◌∷◌, ◌++◌, Option, none, some, ◌==◌, if◌then◌else◌, length, add64,
}
use mxtasking.HashJoin.Table.{Table, insert, get, greatest_value}

-- `emplace_back` of both tasks.
abbrev pub emplace_back : List (ℕ × ℕ) → ℕ → ℕ → List (ℕ × ℕ)
emplace_back keys row_id key = keys ++ (row_id, key) ∷ []

-- `BuildTask::execute`; `none` while an insertion still runs.
unfoldable pub build : ℕ → Table → List (ℕ × ℕ) → Option Table
build fuel t [] = some t
build fuel t (row ∷ rows) = elim (insert fuel t row.1 row.0) [
  | none ↦ none
  | some t' ↦ build fuel t' rows
]

-- `ProbeTask::execute`, with the result set before and after it.
unfoldable pub probe : ℕ → Table → List (ℕ × ℕ) → List (ℕ × ℕ) → Option (List (ℕ × ℕ))
probe fuel t [] result_set = some result_set
probe fuel t (key ∷ keys) result_set = elim (get fuel t key.1) [
  | none ↦ none
  | some row ↦
      probe fuel t keys
        (if row == greatest_value then result_set else emplace_back result_set key.0 row)
]

-- The loop of `MergeTask::execute`, over the result sets of the cores.
unfoldable pub count_tuples : ℕ → List (List (ℕ × ℕ)) → ℕ
count_tuples count [] = count
count_tuples count (set ∷ sets) = count_tuples (add64 count (length set)) sets
