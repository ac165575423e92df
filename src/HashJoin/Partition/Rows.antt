-- ===== src/HashJoin/Partition/Rows.antt =====
-- What the partition task of application/hashjoin_benchmark/partition_task.h spawns for each core.
use mxtasking.Prelude.{
  ℕ, zero, suc, ◌+◌, ◌*◌, ◌%◌, ◌≤◌, ◌<◌, ◌≡◌, refl, sym, ap, ◌∙◌, List, [], ◌∷◌, ◌++◌, true, false,
  ◌==◌, if◌then◌else◌, Bool-cases, inl, inr, length, arith, add64, u64_mod, append-nil,
  append_assoc, length-append, ℕ_discrete, ltb, add32, ◌^◌, none, some,
}
use mathlib.Core.Option
use mxtasking.HashJoin.Join.{emplace_back}
use mxtasking.HashJoin.Partition.{
  Event, spawns, notifies, State, target_of, distribute, distribute_all, flush, execute,
}

-- The specification: the rows that belong to a core, of the `left` rows of a chunk from the index
-- `data_index` on.
unfoldable pub rows_for : (ℕ → ℕ) → ℕ → ℕ → (ℕ → ℕ) → ℕ → ℕ → ℕ → List (ℕ × ℕ)
rows_for std_hash count_cores target chunk offset zero data_index = []
rows_for std_hash count_cores target chunk offset (suc left) data_index =
    let rest = rows_for std_hash count_cores target chunk offset left (data_index + 1) in
    if target_of std_hash count_cores (chunk data_index) == target
    then (add64 offset data_index, chunk data_index) ∷ rest
    else rest

-- The rows that the tasks spawned for a core have, in order.
unfoldable pub rows_of : ℕ → List Event → List (ℕ × ℕ)
rows_of target [] = []
rows_of target (spawns t keys ∷ es) =
    if t == target then keys ++ rows_of target es else rows_of target es
rows_of target (notifies t ∷ es) = rows_of target es

-- No task has more rows than a batch.
abbrev pub FitsBatch : ℕ → List Event → Type 0
FitsBatch batch_size [] = Unit {0}
FitsBatch batch_size (spawns t keys ∷ es) = (length keys ≤ batch_size) × FitsBatch batch_size es
FitsBatch batch_size (notifies t ∷ es) = FitsBatch batch_size es

rows_of-append :
    (target : ℕ) (es fs : List Event)
    → rows_of target (es ++ fs) ≡ rows_of target es ++ rows_of target fs
unfolding rows_of
rows_of-append target [] fs = refl
rows_of-append target (spawns t keys ∷ es) fs = elim (Bool-cases (t == target)) [
  | inl e ↦
      rw (e, rows_of-append target es fs)
        (sym (append_assoc keys (rows_of target es) (rows_of target fs)))
  | inr e ↦ rw e (rows_of-append target es fs)
]
rows_of-append target (notifies t ∷ es) fs = rows_of-append target es fs

FitsBatch-append :
    (batch_size : ℕ) (es fs : List Event)
    → FitsBatch batch_size es
    → FitsBatch batch_size fs
    → FitsBatch batch_size (es ++ fs)
FitsBatch-append batch_size [] fs f g = g
FitsBatch-append batch_size (spawns t keys ∷ es) fs f g =
    (f.0, FitsBatch-append batch_size es fs f.1 g)
FitsBatch-append batch_size (notifies t ∷ es) fs f g = FitsBatch-append batch_size es fs f g

-- Spawned rows and open rows of a core, together.
rows_in : ℕ → State → List (ℕ × ℕ)
rows_in target s = rows_of target s.spawned ++ s.tasks target

distribute-rows_in :
    (std_hash : ℕ → ℕ) (count_cores batch_size : ℕ) (s : State) (row_id key target : ℕ)
    → rows_in target (distribute std_hash count_cores batch_size s row_id key) ≡ (
        if target_of std_hash count_cores key == target
        then rows_in target s ++ (row_id, key) ∷ []
        else rows_in target s)
unfolding distribute rows_in rows_of
distribute-rows_in std_hash count_cores batch_size s row_id key target =
    let t = target_of std_hash count_cores key in
    let keys = emplace_back (s.tasks t) row_id key in
    let task : List (ℕ × ℕ) = s.tasks target in
    let row : List (ℕ × ℕ) = (row_id, key) ∷ [] in
    let more : rows_of target s.spawned ++ (task ++ row) ≡ rows_in target s ++ row =
      sym (append_assoc (rows_of target s.spawned) task row) in
    elim (Bool-cases (t == target)) [
      | inl e ↦
          let same : s.tasks t ≡ task = ap s.tasks (let w : t ≡ target = ground arith in w) in
          elim (Bool-cases (length keys == batch_size)) [
            | inl full ↦
                rw
                  (
                    full,
                    rows_of-append target s.spawned (spawns t keys ∷ []),
                    rows_of,
                    e,
                    same,
                    append-nil (task ++ row),
                    append-nil (rows_of target s.spawned ++ (task ++ row)),
                  )
                  more
            | inr fits ↦ rw (fits, e, same) more
          ]
      | inr n ↦ elim (Bool-cases (length keys == batch_size)) [
        | inl full ↦
            rw
              (
                full,
                n,
                rows_of-append target s.spawned (spawns t keys ∷ []),
                rows_of,
                n,
                append-nil (rows_of target s.spawned),
              )
              refl
        | inr fits ↦ rw (fits, n) refl
      ]
    ]

-- The open tasks have room for a row.
abbrev HasOpen : ℕ → State → Type 0
HasOpen batch_size s = ((t : ℕ) → length (s.tasks t) < batch_size) × FitsBatch batch_size s.spawned

distribute-HasOpen :
    (std_hash : ℕ → ℕ) (count_cores batch_size : ℕ) (s : State) (row_id key : ℕ)
    → HasOpen batch_size s
    → HasOpen batch_size (distribute std_hash count_cores batch_size s row_id key)
unfolding distribute
distribute-HasOpen std_hash count_cores batch_size s row_id key h =
    let t = target_of std_hash count_cores key in
    let keys : List (ℕ × ℕ) = emplace_back (s.tasks t) row_id key in
    let size : length keys ≡ length (s.tasks t) + 1 =
      omega (arith, length-append (s.tasks t) ((row_id, key) ∷ [])) in
    elim (Bool-cases (length keys == batch_size)) [
      | inl full ↦ rw full (
        λ t'. elim (Bool-cases (t == t')) [
          | inl e ↦ rw e (omega (arith, h.0 t))
          | inr n ↦ rw n (h.0 t')
        ],
        FitsBatch-append batch_size s.spawned (spawns t keys ∷ []) h.1 (ground arith, tt),
      )
      | inr fits ↦ rw fits (
        λ t'. elim (Bool-cases (t == t')) [
          | inl e ↦ rw e (ground (arith, h.0 t))
          | inr n ↦ rw n (h.0 t')
        ],
        h.1,
      )
    ]

distribute_all-suc :
    (std_hash : ℕ → ℕ) (count_cores batch_size : ℕ) (chunk : ℕ → ℕ)
    (count offset fuel data_index : ℕ) (s : State)
    → data_index < count
    → count < 2 ^ 32
    → distribute_all std_hash count_cores batch_size chunk count offset (suc fuel) data_index s
      ≡ distribute_all std_hash count_cores batch_size chunk count offset fuel (data_index + 1) (
          distribute std_hash count_cores batch_size s (add64 offset data_index) (chunk data_index))
unfolding distribute_all
distribute_all-suc std_hash count_cores batch_size chunk count offset fuel i s lt small =
    let goes_on : ltb i count ≡ true = ground arith in
    let next : add32 i 1 ≡ i + 1 = omega arith in rw (goes_on, next) refl

-- The loop ends, with the rows of the chunk in its tasks.
distribute_all-rows_in :
    (std_hash : ℕ → ℕ) (count_cores batch_size : ℕ) (chunk : ℕ → ℕ)
    (count offset left fuel data_index : ℕ) (s : State)
    → data_index + left ≡ count
    → count < 2 ^ 32
    → left < fuel
    → HasOpen batch_size s
    → (s' : State) × (distribute_all std_hash count_cores batch_size chunk count offset fuel
          data_index s
        ≡ some s')
      × ((target : ℕ)
          → rows_in target s'
            ≡ rows_in target s ++ rows_for std_hash count_cores target chunk offset left data_index)
      × HasOpen batch_size s'
unfolding distribute_all rows_for
distribute_all-rows_in std_hash count_cores batch_size chunk count offset left zero i s e small few
      room =
    absurd (omega arith)
distribute_all-rows_in std_hash count_cores batch_size chunk count offset zero (suc fuel) i s e
      small few room =
    let done : ltb i count ≡ false = ground arith in
    (s, rw done refl, λ target. sym (append-nil (rows_in target s)), room)
distribute_all-rows_in std_hash count_cores batch_size chunk count offset (suc left) (suc fuel) i s
      e small few room =
    let key = chunk i in
    let s1 = distribute std_hash count_cores batch_size s (add64 offset i) key in
    let (s', ends, rows, has_room) =
      distribute_all-rows_in std_hash count_cores batch_size chunk count offset left fuel (i + 1) s1
        (omega arith) small (omega arith)
        (distribute-HasOpen std_hash count_cores batch_size s (add64 offset i) key room) in
    (
      s',
      distribute_all-suc std_hash count_cores batch_size chunk count offset fuel i s (omega arith)
            small
          ∙ ends,
      λ target.
          let one =
            distribute-rows_in std_hash count_cores batch_size s (add64 offset i) key target in
          let others : List (ℕ × ℕ) =
            rows_for std_hash count_cores target chunk offset left (i + 1) in
          elim (Bool-cases (target_of std_hash count_cores key == target)) [
            | inl e ↦
                rows target
                ∙ ap (λ (rs : List (ℕ × ℕ)). rs ++ others) (rw e at one)
                ∙ (rw e (append_assoc (rows_in target s) ((add64 offset i, key) ∷ []) others))
            | inr n ↦
                rows target ∙ ap (λ (rs : List (ℕ × ℕ)). rs ++ others) (rw n at one) ∙ (rw n refl)
          ],
      has_room,
    )

flush-rows_behind :
    (tasks : ℕ → List (ℕ × ℕ)) (left from target : ℕ)
    → target < from
    → rows_of target (flush tasks left from) ≡ []
unfolding flush rows_of
flush-rows_behind tasks zero from target h = refl
flush-rows_behind tasks (suc left) from target h =
    let other : (from == target) ≡ false = ground arith in
    rw other (flush-rows_behind tasks left (from + 1) target (omega arith))

flush-rows :
    (tasks : ℕ → List (ℕ × ℕ)) (left from target : ℕ)
    → from ≤ target
    → target < from + left
    → rows_of target (flush tasks left from) ≡ tasks target
unfolding flush rows_of
flush-rows tasks zero from target h b = absurd (omega arith)
flush-rows tasks (suc left) from target h b = elim (ℕ_discrete from target) [
  | yes e ↦
      let w : (from == target) ≡ true = ground arith in
      rw (w, flush-rows_behind tasks left (from + 1) target (omega arith))
        (append-nil (tasks from) ∙ ap tasks e)
  | no n ↦
      let w : (from == target) ≡ false = ground arith in
      rw w (flush-rows tasks left (from + 1) target (omega arith) (omega arith))
]

flush-FitsBatch :
    (batch_size : ℕ) (tasks : ℕ → List (ℕ × ℕ)) (left from : ℕ)
    → ((t : ℕ) → length (tasks t) < batch_size)
    → FitsBatch batch_size (flush tasks left from)
unfolding flush
flush-FitsBatch batch_size tasks zero from h = tt
flush-FitsBatch batch_size tasks (suc left) from h =
    (omega (arith, h from), flush-FitsBatch batch_size tasks left (from + 1) h)

-- A partition task with a positive batch size ends within one round more than its chunk has rows,
-- which are fewer than 2 ^ 32. For each core, the tasks that it spawns have exactly the rows of the
-- chunk whose keys belong to the core, in the order of the chunk, and no task has more rows than a
-- batch.
pub execute-rows_for :
    (std_hash : ℕ → ℕ) (count_cores batch_size fuel channel_id : ℕ) (chunk : ℕ → ℕ) (count : ℕ)
    → 0 < batch_size
    → count < 2 ^ 32
    → count < fuel
    → (events : List Event) × (execute std_hash count_cores batch_size fuel channel_id chunk count
        ≡ some events)
      × ((target : ℕ)
          → target < count_cores
          → rows_of target events
            ≡ rows_for std_hash count_cores target chunk (channel_id * count % u64_mod) count 0)
      × FitsBatch batch_size events
unfolding execute rows_in rows_of
execute-rows_for std_hash count_cores batch_size fuel channel_id chunk count pos small few =
    let offset = channel_id * count % u64_mod in
    let new : State = record { tasks = λ _. []; spawned = [] } in
    let (s, ends, rows, has_room) =
      distribute_all-rows_in std_hash count_cores batch_size chunk count offset count fuel 0 new
        (omega arith) small few (λ _. pos, tt) in
    (
      s.spawned ++ flush s.tasks count_cores 0,
      ap (Option.map (λ s. s.spawned ++ flush s.tasks count_cores 0)) ends,
      λ target lt.
          rows_of-append target s.spawned (flush s.tasks count_cores 0)
          ∙ ap (λ (rs : List (ℕ × ℕ)). rows_of target s.spawned ++ rs)
              (flush-rows s.tasks count_cores 0 target (omega arith) (omega arith))
          ∙ rows target,
      FitsBatch-append batch_size s.spawned (flush s.tasks count_cores 0) has_room.1
          (flush-FitsBatch batch_size s.tasks count_cores 0 has_room.0),
    )

-- With 2 ^ 32 rows or more the index of the loop wraps around and stays below the number of rows:
-- the loop never ends.
distribute_all-endless :
    (std_hash : ℕ → ℕ) (count_cores batch_size : ℕ) (chunk : ℕ → ℕ)
    (count offset fuel data_index : ℕ) (s : State)
    → data_index < 2 ^ 32
    → 2 ^ 32 ≤ count
    → distribute_all std_hash count_cores batch_size chunk count offset fuel data_index s ≡ none
unfolding distribute_all
distribute_all-endless std_hash count_cores batch_size chunk count offset zero i s word large = refl
distribute_all-endless std_hash count_cores batch_size chunk count offset (suc fuel) i s word
      large =
    let goes_on : ltb i count ≡ true = ground arith in
    rw goes_on (
      distribute_all-endless std_hash count_cores batch_size chunk count offset fuel (add32 i 1)
        (distribute std_hash count_cores batch_size s (add64 offset i) (chunk i)) (omega arith)
        large)
