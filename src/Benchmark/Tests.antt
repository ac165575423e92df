-- ===== src/Benchmark/Tests.antt =====
-- A container of requests, at which the theorem on it is applied.
use mxtasking.Prelude.{◌+◌, ◌≤◌, arith}
use mxtasking.Benchmark.Requests.{RequestContainer, create, next, next_batch, refill}
use mxtasking.Benchmark.Requests.Pending.{Answers, finished}
use mxtasking.Benchmark.Requests.Runs.{Reachable, creates, asks, next-Answers}

-- Two requests, of which at most one may be pending.
abbrev new : RequestContainer
unfolding create next_batch
new = create 0 1 (record { size = 2; current_index = 0 })

first_asked-Reachable : Reachable 0 1 2 (next new).1
unfolding create next_batch
first_asked-Reachable = asks creates (omega arith)

next-Answers_example :
    ((next new).1.scheduled_requests ≤ finished (next new).1 + (next new).1.max_pending_requests)
    × Answers (next new).1 (next (next new).1)
unfolding create next_batch next refill
next-Answers_example =
    next-Answers 0 1 2 (next new).1 (omega arith) (omega arith) first_asked-Reachable (omega arith)
