-- ===== src/Benchmark/Phases/Sequence.antt =====
-- The order of the phases of application/blinktree_benchmark/benchmark.cpp.
use mxtasking.Prelude.{◌+◌, ◌%◌, ◌^◌, ◌<◌, ◌≡◌, refl, ◌==◌, ltb, false, true, arith}
use mxtasking.Benchmark.Phases.{
  Benchmark, fill_phase, mixed_phase, core_set, next_iteration, first_time,
}

-- Behind the first phase comes the second, if it has requests, in the same iteration.
pub core_set-mixed_phase :
    (b : Benchmark)
    → b.phase ≡ fill_phase
    → b.is_mixed_empty ≡ false
    → b.current_iteration < first_time
    → ((core_set b).1.phase ≡ mixed_phase)
      × ((core_set b).1.current_iteration ≡ b.current_iteration)
unfolding core_set
core_set-mixed_phase b f m l =
    let started : (b.current_iteration == first_time) ≡ false = ground arith in
    rw (started, f, m) (refl, refl)

-- Behind the second phase comes the first one of the next iteration, while there is one.
pub core_set-fill_phase :
    (b : Benchmark)
    → b.phase ≡ mixed_phase
    → b.current_iteration + 1 < b.iterations
    → b.iterations < first_time
    → ((core_set b).1.phase ≡ fill_phase)
      × ((core_set b).1.current_iteration ≡ b.current_iteration + 1)
unfolding core_set next_iteration
core_set-fill_phase b f i l =
    let started : (b.current_iteration == first_time) ≡ false = ground arith in
    let counted : (b.current_iteration + 1) % 2 ^ 16 ≡ b.current_iteration + 1 = omega arith in
    let more : ltb (b.current_iteration + 1) b.iterations ≡ true = ground arith in
    rw (started, f, counted, more) (refl, refl)
