-- ===== src/Benchmark/Scheduler.antt =====
-- application/blinktree_benchmark/request_scheduler.h: the task that makes a tree task of each request
-- that its container hands out. `height` is that of the tree, `request` the tuple of the workload at an
-- index. `none` is the call of a method of a task that was not made, which a deletion leads to.
pub mod Made
use mxtasking.Prelude.{
  ℕ, zero, suc, ◌+◌, ◌/◌, Bool, true, false, ltb, if◌then◌else◌, List, [], ◌∷◌, Option, none, some,
}
use mxtasking.Benchmark.Workloads.{NumericTuple, TupleType, inserts, lookups, updates, deletes}
use mxtasking.Benchmark.Requests
use mxtasking.Benchmark.Requests.{RequestContainer, RequestIndex, Workload, has_new, is_finished}

-- config::max_parallel_requests()
abbrev pub max_parallel_requests : ℕ
max_parallel_requests = 1500

-- The container of the constructor, for `count_cores` cores.
unfoldable pub create_container : ℕ → ℕ → Workload → RequestContainer
create_container core_id count_cores w =
    Requests.create core_id (max_parallel_requests / count_cores) w

-- The tasks that are spawned at the root, and whether they only read at first.
pub data TreeTask : Type 0 where
  insert_task : ℕ → ℕ → Bool → TreeTask
  lookup_task : ℕ → TreeTask
  update_task : ℕ → ℕ → Bool → TreeTask

unfoldable pub task_for : ℕ → NumericTuple → Option TreeTask
task_for height tuple = elim (tuple.type) [
  | inserts ↦ some (insert_task tuple.key tuple.value (ltb 1 height))
  | lookups ↦ some (lookup_task tuple.key)
  | updates ↦ some (update_task tuple.key tuple.value (ltb 1 height))
  | deletes ↦ none
]

-- The loop over the `left` requests from the index `i` on.
unfoldable pub make_tasks : ℕ → (ℕ → NumericTuple) → ℕ → ℕ → Option (List TreeTask)
unfolding task_for
make_tasks height request zero i = some []
make_tasks height request (suc left) i =
    let rest = make_tasks height request left (i + 1) in
    elim (task_for height (request i)) [
      | none ↦ none
      | some t ↦ elim rest [ none ↦ none | some ts ↦ some (t ∷ ts) ]
    ]

-- What comes of an execution: the task runs again, or it has told the benchmark that its requests are
-- finished, and is removed.
pub data Result : Type 0 where
  succeeds removed : Result

unfoldable pub execute :
    ℕ → (ℕ → NumericTuple) → RequestContainer → Option (List TreeTask × Result × RequestContainer)
unfolding make_tasks
execute height request c =
    let (next_requests, c') = Requests.next c in
    if has_new next_requests
    then elim (make_tasks height request next_requests.count next_requests.index) [
      | none ↦ none
      | some tasks ↦ some (tasks, succeeds, c')
    ]
    else some ([], (if is_finished next_requests then removed else succeeds), c')
