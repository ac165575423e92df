-- ===== src/Benchmark/Scheduler/Made.antt =====
-- The tasks that application/blinktree_benchmark/request_scheduler.h makes of requests without a
-- deletion.
use mxtasking.Prelude.{
  ℕ, zero, suc, ◌+◌, ◌≤◌, ◌<◌, ◌≡◌, ◌≢◌, refl, ap, List, [], ◌∷◌, length, some, arith,
}
use mxtasking.Benchmark.Workloads.{NumericTuple, TupleType, inserts, lookups, updates, deletes}
use mxtasking.Benchmark.Scheduler.{TreeTask, task_for, make_tasks}

made :
    (height : ℕ) (type : TupleType) (key value : ℕ)
    → type ≢ deletes
    → (t : TreeTask) × (task_for height (record { type = type; key = key; value = value }) ≡ some t)
unfolding task_for
made height inserts key value h = (_, refl)
made height lookups key value h = (_, refl)
made height updates key value h = (_, refl)
made height deletes key value h = absurd (h refl)

-- Without a deletion among them, there is a task for each request.
pub make_tasks_lem :
    (height : ℕ) (request : ℕ → NumericTuple) (left i : ℕ)
    → ((j : ℕ) → i ≤ j → j < i + left → (request j).type ≢ deletes)
    → (tasks : List TreeTask) × (make_tasks height request left i ≡ some tasks)
      × (length tasks ≡ left)
unfolding make_tasks
make_tasks_lem height request zero i h = ([], refl, refl)
make_tasks_lem height request (suc left) i h =
    let r : NumericTuple = request i in
    let (t, e) = made height r.type r.key r.value (h i (omega arith) (omega arith)) in
    let (ts, es, l) =
      make_tasks_lem height request left (i + 1) (λ j p q. h j (omega arith) (omega arith)) in
    (t ∷ ts, rw (make_tasks, e, es), ap suc l)
