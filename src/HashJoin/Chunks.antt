-- ===== src/HashJoin/Chunks.antt =====
-- application/hashjoin_benchmark/benchmark.cpp: the keys of a column that the partition task of each
-- core gets. A key has 4 bytes, a cache line 64.
pub mod Whole
use mxtasking.Prelude.{ℕ, ◌+◌, ◌-◌, ◌*◌, ◌/◌, ltb, if◌then◌else◌}

unfoldable pub tuples_per_core : ℕ → ℕ → ℕ
tuples_per_core count_join_keys count_cores =
    let cache_lines = count_join_keys * 4 / 64 in
    let cache_lines_per_core = cache_lines / count_cores in cache_lines_per_core * (64 / 4)

-- The chunk of a core: its first key, and how many keys it has. The last core gets the rest.
unfoldable pub chunk_start : ℕ → ℕ → ℕ → ℕ
unfolding tuples_per_core
chunk_start count_keys count_cores i = i * tuples_per_core count_keys count_cores

unfoldable pub chunk_size : ℕ → ℕ → ℕ → ℕ
unfolding tuples_per_core
chunk_size count_keys count_cores i =
    let per_core = tuples_per_core count_keys count_cores in
    if ltb i (count_cores - 1) then per_core else count_keys - (count_cores - 1) * per_core
