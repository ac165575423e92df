-- ===== src/Benchmark/Workloads/Sizes.antt =====
-- How many requests benchmark/workload_set.cpp builds, and for which keys.
use native.Mathlib.Nat.{mod-lt}
use mxtasking.Prelude.{
  ℕ, zero, suc, ◌+◌, ◌%◌, ◌<◌, ◌≡◌, refl, ap, ◌∙◌, length, length-append, get_or, arith,
}
use mxtasking.Benchmark.Workloads.{
  NumericTuple, each_index, insert_tuple, filled_key, no_tuple, build,
}

length-each_index :
    (tuple : ℕ → NumericTuple) (left i : ℕ) → length (each_index tuple left i) ≡ left
unfolding each_index
length-each_index tuple zero i = refl
length-each_index tuple (suc left) i = omega (arith, length-each_index tuple left (i + 1))

get_or-each_index :
    (tuple : ℕ → NumericTuple) (left i j : ℕ)
    → j < left
    → get_or (each_index tuple left i) j no_tuple ≡ tuple (i + j)
unfolding each_index
get_or-each_index tuple zero i j h = absurd (omega arith)
get_or-each_index tuple (suc left) i zero h = ap tuple (omega arith)
get_or-each_index tuple (suc left) i (suc j) h =
    get_or-each_index tuple left (i + 1) j (omega arith) ∙ ap tuple (omega arith)

-- There are as many requests as were asked for in either phase.
pub length-build :
    (rand : ℕ → ℕ) (fill_inserts inserts lookups updates deletes : ℕ)
    → (length (build rand fill_inserts inserts lookups updates deletes).fill ≡ fill_inserts)
      × (length (build rand fill_inserts inserts lookups updates deletes).mixed
          ≡ inserts + lookups + updates + deletes)
unfolding build
length-build rand fill_inserts inserts lookups updates deletes = (
  length-each_index _ fill_inserts 0,
  length-append _ (each_index _ deletes 0)
      ∙ ap₄
          (length-append _ (each_index _ updates 0)
            ∙ ap₄
                (length-append _ (each_index _ lookups 0)
                  ∙ ap₄ (length-each_index _ inserts fill_inserts) (length-each_index _ lookups 0))
                (length-each_index _ updates 0))
          (length-each_index _ deletes 0),
)
  where
    ap₄ : {a b c d : ℕ} → a ≡ b → c ≡ d → a + c ≡ b + d
    ap₄ p q = omega arith

-- The key of a request of the second phase is one that the first phase has inserted.
pub filled_key-inserted :
    (rand : ℕ → ℕ) (fill_inserts i : ℕ)
    → 0 < fill_inserts
    → filled_key (each_index (insert_tuple rand) fill_inserts 0) fill_inserts i
      ≡ i % fill_inserts + 1
filled_key-inserted rand fill_inserts i h =
    ap (λ (t : NumericTuple). t.key)
      (get_or-each_index (insert_tuple rand) fill_inserts 0 (i % fill_inserts) (mod-lt i h))
    ∙ omega arith
