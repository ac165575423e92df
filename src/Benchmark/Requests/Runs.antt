-- ===== src/Benchmark/Requests/Runs.antt =====
-- The containers of application/blinktree_benchmark/request_scheduler.h that calls reach.
use mxtasking.Prelude.{ℕ, ◌+◌, ◌^◌, ◌≤◌, ◌<◌, refl, ◌==◌, ltb, Bool-cases, inl, inr, arith}
use mxtasking.Benchmark.Requests.{add, next_batch, RequestContainer, create, next, task_finished}
use mxtasking.Benchmark.Requests.Pending.{IsInOrder, finished, Answers, next-IsInOrder}

create-IsInOrder :
    (core_id max_open_requests size : ℕ)
    → size < 2 ^ 62
    → max_open_requests < 2 ^ 62
    → IsInOrder (create core_id max_open_requests (record { size = size; current_index = 0 }))
unfolding create next_batch
create-IsInOrder core_id max_open_requests size small bounded = elim (Bool-cases (ltb 0 size)) [
  | inl t ↦ rw t (record {
    small = small;
    counted = ground arith;
    buffered = inr refl;
    done = omega arith;
    limit = omega arith;
    bounded = bounded;
  })
  | inr t ↦ rw t (record {
    small = small;
    counted = ground arith;
    buffered = inl refl;
    done = omega arith;
    limit = omega arith;
    bounded = bounded;
  })
]

task_finished-IsInOrder :
    (c : RequestContainer) (core_id : ℕ)
    → IsInOrder c
    → finished c < c.scheduled_requests
    → IsInOrder (task_finished c core_id)
unfolding task_finished add
task_finished-IsInOrder c core_id h open_task =
    elim (Bool-cases (c.finished_requests.local_core_id == core_id)) [
      | inl t ↦ rw t (record {
        small = h.small;
        counted = h.counted;
        buffered = h.buffered;
        bounded = h.bounded;
        done = omega (arith, h.counted, h.small);
        limit = omega (arith, h.counted, h.small, h.limit);
      })
      | inr t ↦ rw t (record {
        small = h.small;
        counted = h.counted;
        buffered = h.buffered;
        bounded = h.bounded;
        done = omega (arith, h.counted, h.small);
        limit = omega (arith, h.counted, h.small, h.limit);
      })
    ]

-- The calls on a container: its task asks for requests, and tasks on any core finish.
pub data Reachable (core_id max_open_requests size : ℕ) : RequestContainer → Type 0 where
  creates :
      Reachable core_id max_open_requests size
        (create core_id max_open_requests (record { size = size; current_index = 0 }))
  asks :
      {c : RequestContainer}
      → Reachable core_id max_open_requests size c
      → c.workload.current_index < 2 ^ 63
      → Reachable core_id max_open_requests size (next c).1
  finishes :
      {c : RequestContainer} (core : ℕ)
      → Reachable core_id max_open_requests size c
      → finished c < c.scheduled_requests
      → Reachable core_id max_open_requests size (task_finished c core)

Reachable-IsInOrder :
    {core_id max_open_requests size : ℕ} {c : RequestContainer}
    → size < 2 ^ 62
    → max_open_requests < 2 ^ 62
    → Reachable core_id max_open_requests size c
    → IsInOrder c
Reachable-IsInOrder {core_id} {max_open_requests} {size} small bounded creates =
    create-IsInOrder core_id max_open_requests size small bounded
Reachable-IsInOrder small bounded (asks {c} r low) =
    (next-IsInOrder c (Reachable-IsInOrder small bounded r) low).0
Reachable-IsInOrder small bounded (finishes {c} core r open_task) =
    task_finished-IsInOrder c core (Reachable-IsInOrder small bounded r) open_task

-- A container with a workload of its own, whatever its task asks and whichever scheduled requests
-- finish: the requests that are scheduled and not finished are within the limit, and `next` gives
-- the requests behind those scheduled before, or none for now, or the end, and the end only when
-- all requests of the workload are scheduled and finished.
pub next-Answers :
    (core_id max_open_requests size : ℕ) (c : RequestContainer)
    → size < 2 ^ 62
    → max_open_requests < 2 ^ 62
    → Reachable core_id max_open_requests size c
    → c.workload.current_index < 2 ^ 63
    → (c.scheduled_requests ≤ finished c + c.max_pending_requests) × Answers c (next c)
next-Answers core_id max_open_requests size c small bounded r low =
    let h = Reachable-IsInOrder small bounded r in (h.limit, (next-IsInOrder c h low).1)
