-- ===== src/Benchmark/Workloads.antt =====
-- benchmark/workload_set.h and workload_set.cpp: the requests of the two phases, built from counts.
-- `rand n` is what the n-th call of std::rand behind std::srand returns. The counts are below 2 ^ 32,
-- the width of the loops' indices. A lookup, an update or a deletion without a request in the first
-- phase divides by zero; here its key is 0.
pub mod Sizes
use mxtasking.Prelude.{ℕ, zero, suc, ◌+◌, ◌%◌, Bool, ltb, ◌||◌, List, [], ◌∷◌, ◌++◌, get_or}

pub data TupleType : Type 0 where
  inserts lookups updates deletes : TupleType

pub record NumericTuple : Type 0 where
  pub type : TupleType
  pub key : ℕ
  pub value : ℕ

pub record WorkloadSet : Type 0 where
  pub fill : List NumericTuple
  pub mixed : List NumericTuple
  pub mixed_phase_contains_update : Bool

-- `emplace_back` in a loop over the `left` indices from `i` on.
unfoldable pub each_index : (ℕ → NumericTuple) → ℕ → ℕ → List NumericTuple
each_index tuple zero i = []
each_index tuple (suc left) i = tuple i ∷ each_index tuple left (i + 1)

abbrev pub no_tuple : NumericTuple
no_tuple = record { type = lookups; key = 0; value = 0 }

abbrev pub insert_tuple : (ℕ → ℕ) → ℕ → NumericTuple
insert_tuple rand i = record { type = inserts; key = i + 1; value = rand i }

abbrev pub filled_key : List NumericTuple → ℕ → ℕ → ℕ
filled_key fill fill_inserts i = (get_or fill (i % fill_inserts) no_tuple).key

unfoldable pub build : (ℕ → ℕ) → ℕ → ℕ → ℕ → ℕ → ℕ → WorkloadSet
unfolding each_index
build rand fill_inserts mixed_inserts mixed_lookups mixed_updates mixed_deletes =
    let fill = each_index (insert_tuple rand) fill_inserts 0 in
    let key = filled_key fill fill_inserts in
    let inserted = fill_inserts + mixed_inserts in
    record {
      fill = fill;
      mixed =
          each_index (insert_tuple rand) mixed_inserts fill_inserts
          ++ each_index (λ i. record { type = lookups; key = key i; value = 0 }) mixed_lookups 0
          ++ each_index (λ i. record { type = updates; key = key i; value = rand (inserted + i) })
              mixed_updates 0
          ++ each_index (λ i. record { type = deletes; key = key i; value = 0 }) mixed_deletes 0;
      mixed_phase_contains_update =
          ltb 0 mixed_inserts || ltb 0 mixed_deletes || ltb 0 mixed_updates;
    }
