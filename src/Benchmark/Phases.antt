-- ===== src/Benchmark/Phases.antt =====
-- application/blinktree_benchmark/benchmark.cpp: the phases and iterations of the benchmark, and the
-- end of a phase. Measurement and files are left.
pub mod Sequence
use mxtasking.Prelude.{
  ℕ, ◌+◌, ◌-◌, ◌%◌, ◌^◌, Bool, true, false, not, ◌==◌, ltb, ◌&&◌, ◌||◌, if◌then◌else◌,
}
use mxtasking.Util.CoreSet
use mxtasking.Util.CoreSet.{CoreSet}
use mxtasking.Benchmark.Cores
use mxtasking.Benchmark.Cores.{Cores}

pub data Phase : Type 0 where
  fill_phase mixed_phase : Phase

abbrev pub is_fill : Phase → Bool
is_fill fill_phase = true
is_fill mixed_phase = false

pub record Benchmark : Type 0 where
  pub iterations : ℕ
  pub current_iteration : ℕ
  pub phase : Phase
  pub is_mixed_empty : Bool
  pub cores : Cores
  pub has_tree : Bool
  pub open_requests : ℕ

abbrev pub first_time : ℕ
first_time = 2 ^ 16 - 1

-- The end of `core_set()`, which takes the next iteration or the next core set.
unfoldable pub next_iteration : Benchmark → CoreSet × Benchmark
next_iteration b =
    let iteration = (b.current_iteration + 1) % 2 ^ 16 in
    let (cores, c) = Cores.next b.cores in
    let filled = record b { phase = fill_phase } in
    if ltb iteration b.iterations
    then (Cores.current b.cores, record filled { current_iteration = iteration })
    else (cores, record filled { current_iteration = 0; cores = c })

unfoldable pub core_set : Benchmark → CoreSet × Benchmark
unfolding next_iteration
core_set b =
    let (cores, c) = Cores.next b.cores in
    if b.current_iteration == first_time
    then (cores, record b { current_iteration = 0; cores = c })
    else if is_fill b.phase && not b.is_mixed_empty
    then (Cores.current b.cores, record b { phase = mixed_phase })
    else next_iteration b

-- `start()`: a tree, and a request scheduler for each core.
unfoldable pub start : Benchmark → Benchmark
start b = record b {
  has_tree = true;
  open_requests = CoreSet.size (Cores.current b.cores) % 2 ^ 16;
}

abbrev pub is_last_phase : Benchmark → Bool
is_last_phase b = not (is_fill b.phase) || b.is_mixed_empty

-- `requests_finished()`, and whether it stops the runtime.
unfoldable pub requests_finished : Benchmark → Bool × Benchmark
requests_finished b =
    let open_requests = (b.open_requests + 2 ^ 16 - 1) % 2 ^ 16 in
    let counted = record b { open_requests = open_requests } in
    if open_requests == 0
    then (true, record counted { has_tree = b.has_tree && not (is_last_phase b) })
    else (false, counted)
