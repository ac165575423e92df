-- ===== src/Benchmark/Cores.antt =====
-- benchmark/cores.h and cores.cpp: the core sets of a benchmark, one after the other. The counts of
-- cores are below 2 ^ 16 - 1, so the loop ends; the parsing of text is not part of it.
pub mod Range
use mxtasking.Prelude.{
  ℕ, zero, suc, ◌+◌, ◌-◌, ◌%◌, ◌^◌, Bool, ◌==◌, not, ltb, ◌||◌, if◌then◌else◌, List, [], ◌∷◌, ◌++◌,
  map, length, get_or,
}
use mxtasking.Util.CoreSet
use mxtasking.Util.CoreSet.{CoreSet, Order, empty_set}

pub record Cores : Type 0 where
  pub core_sets : List CoreSet
  pub current_index : ℕ

-- The loop over the `left` counts from `count_cores` on.
unfoldable pub multiples : ℕ → ℕ → ℕ → List ℕ
multiples steps zero count_cores = []
multiples steps (suc left) count_cores =
    let rest = multiples steps left (count_cores + 1) in
    if count_cores % steps == 0 then count_cores ∷ rest else rest

-- The counts of cores for which `add_for_range` builds a core set, in order.
unfoldable pub range : ℕ → ℕ → ℕ → List ℕ
unfolding multiples
range min_cores max_cores steps =
    let cores = if min_cores % steps == 0 then min_cores else min_cores + 1 in
    if min_cores == 0 || min_cores == max_cores
    then max_cores ∷ []
    else ((if min_cores % steps == 0 then [] else min_cores ∷ [])
        ++ multiples steps (max_cores + 1 - cores) cores
        ++ (if max_cores % steps == 0 then [] else max_cores ∷ []))

-- `add_for_range`, with the sizes of the machine that `CoreSet.build` reads.
unfoldable pub add_for_range : (ℕ → ℕ) → ℕ → ℕ → ℕ → ℕ → ℕ → Order → Cores → Cores
unfolding range
add_for_range node_id limit count_cores min_cores max_cores steps order c = record c {
  core_sets =
      c.core_sets
      ++ map (λ cores. CoreSet.build node_id limit count_cores cores order)
          (range min_cores max_cores steps);
}

-- `next()`; behind the last set it returns an empty one.
unfoldable pub next : Cores → CoreSet × Cores
next c = (
  (if ltb c.current_index (length c.core_sets)
      then get_or c.core_sets c.current_index empty_set
      else empty_set),
  record c { current_index = (c.current_index + 1) % 2 ^ 16 },
)

-- `current()`, behind a call of `next`.
abbrev pub current : Cores → CoreSet
current c = get_or c.core_sets (c.current_index - 1) empty_set
