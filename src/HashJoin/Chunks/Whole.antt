-- ===== src/HashJoin/Chunks/Whole.antt =====
-- The chunks of application/hashjoin_benchmark/benchmark.cpp make up the whole column.
use native.Mathlib.Nat.{div-add-mod}
use mxtasking.Prelude.{ℕ, ◌+◌, ◌-◌, ◌*◌, ◌/◌, ◌≤◌, ◌<◌, ◌≡◌, ap, ◌∙◌, ltb, true, false, arith}
use mxtasking.HashJoin.Chunks.{tuples_per_core, chunk_start, chunk_size}

tuples_per_core-le :
    (count_keys count_cores : ℕ) → count_cores * tuples_per_core count_keys count_cores ≤ count_keys
unfolding tuples_per_core
tuples_per_core-le count_keys count_cores =
    let lines : ℕ = count_keys * 4 / 64 in
    let per_core : ℕ = lines / count_cores in
    let bound : count_cores * per_core ≤ lines = omega (arith, div-add-mod lines count_cores) in
    let move : count_cores * (per_core * 16) ≡ count_cores * per_core * 16 = grind arith in
    omega (arith, bound, move)

-- Each chunk ends where the next one begins, and the last one at the end of the column.
pub chunk_size_lem :
    (count_keys count_cores i : ℕ)
    → i + 1 < count_cores
    → (chunk_start count_keys count_cores i + chunk_size count_keys count_cores i
        ≡ chunk_start count_keys count_cores (i + 1))
      × (chunk_start count_keys count_cores (count_cores - 1)
            + chunk_size count_keys count_cores (count_cores - 1)
          ≡ count_keys)
unfolding chunk_start chunk_size
chunk_size_lem count_keys count_cores i h =
    let p : ℕ = tuples_per_core count_keys count_cores in
    let inner : ltb i (count_cores - 1) ≡ true = ground arith in
    let outer : ltb (count_cores - 1) (count_cores - 1) ≡ false = ground arith in
    let step : (i + 1) * p ≡ i * p + p = grind arith in
    let c : ℕ = count_cores - 1 in
    let cores : count_cores ≡ c + 1 = omega arith in
    let one_more : (c + 1) * p ≡ c * p + p = grind arith in
    let all : count_cores * p ≡ c * p + p = ap (λ (x : ℕ). x * p) cores ∙ one_more in
    let bound : count_cores * p ≤ count_keys = tuples_per_core-le count_keys count_cores in
    rw (inner, outer) (omega (arith, step), omega (arith, all, bound))
