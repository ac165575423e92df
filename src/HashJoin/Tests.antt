-- ===== src/HashJoin/Tests.antt =====
-- A join of two small tables, and the phases of two cores, at which the theorems on
-- application/hashjoin_benchmark are applied.
use mxtasking.Prelude.{
  ℕ, ◌^◌, ◌*◌, ◌%◌, ◌<◌, ◌≡◌, ◌==◌, if◌then◌else◌, refl, List, [], ◌∷◌, some, arith,
}
use mxtasking.HashJoin.Table.{Table, Entry, create}
use mxtasking.HashJoin.Join.{build, probe}
use mxtasking.HashJoin.Join.Correct.{last_row, join, HasKeys, HasIds, probe-build}
use mxtasking.HashJoin.Partition.{Event, target_of, execute}
use mxtasking.HashJoin.Partition.Rows.{rows_of, rows_for, FitsBatch, execute-rows_for}
use mxtasking.HashJoin.Phase.{notify, after}
use mxtasking.HashJoin.Phase.Complete.{count, incomplete, IsHistory, notify_complete}

abbrev built_rows : List (ℕ × ℕ)
built_rows = (0, 50) ∷ (1, 66) ∷ (2, 50) ∷ []

abbrev probed_rows : List (ℕ × ℕ)
probed_rows = (0, 66) ∷ (1, 7) ∷ (2, 50) ∷ []

abbrev memory : ℕ → Entry
memory i = record { key = i; value = i }

built_rows-HasKeys : HasKeys built_rows
built_rows-HasKeys = (omega arith, (omega arith, (omega arith, tt)))

built_rows-HasIds : HasIds built_rows
built_rows-HasIds = (omega arith, (omega arith, (omega arith, tt)))

probed_rows-HasKeys : HasKeys probed_rows
probed_rows-HasKeys = (omega arith, (omega arith, (omega arith, tt)))

probe-build_example :
    (t : Table) × (build (2 ^ 2) (create 72 memory) built_rows ≡ some t)
    × (probe (2 ^ 2) t probed_rows [] ≡ some (join built_rows probed_rows))
probe-build_example =
    probe-build 72 2 memory built_rows probed_rows refl (omega arith) (omega arith)
      built_rows-HasKeys built_rows-HasIds probed_rows-HasKeys

join_small : join built_rows probed_rows ≡ (0, 1) ∷ (2, 2) ∷ []
unfolding join last_row
join_small = refl

abbrev chunk : ℕ → ℕ
chunk i = if i == 0 then 50 else (if i == 1 then 7 else 9)

-- Cores are numbered by the parity of the key.
execute-rows_for_example :
    (events : List Event) × (execute (λ k. k) 2 2 4 1 chunk 3 ≡ some events)
    × ((target : ℕ)
        → target < 2
        → rows_of target events ≡ rows_for (λ k. k) 2 target chunk (1 * 3 % 2 ^ 64) 3 0)
    × FitsBatch 2 events
execute-rows_for_example =
    execute-rows_for (λ k. k) 2 2 4 1 chunk 3 (omega arith) (omega arith) (omega arith)

odd_rows : rows_for (λ k. k) 2 1 chunk 3 3 0 ≡ (4, 7) ∷ (5, 9) ∷ []
unfolding rows_for target_of
odd_rows = refl

notifications : IsHistory 2 (1 ∷ 0 ∷ 0 ∷ 1 ∷ [])
unfolding count
notifications = record { below = λ c h. ground arith; most = λ c. ground arith }

notify_complete_example :
    (notify (after 2 (0 ∷ 0 ∷ 1 ∷ [])) 1).1 ≡ (incomplete 2 (1 ∷ 0 ∷ 0 ∷ 1 ∷ []) 2 == 0)
notify_complete_example =
    notify_complete 2 1 (0 ∷ 0 ∷ 1 ∷ []) (omega arith) (omega arith) notifications
