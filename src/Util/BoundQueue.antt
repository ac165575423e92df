-- ===== src/Util/BoundQueue.antt =====
-- mx/util/bound_mpmc_queue.h: a queue in a ring of slots, each with a sequence number. Each call is
-- run to its end before the next begins, but the weak compare-and-exchange of a round may still
-- fail: a list says for each round of a call whether it would fail spuriously. A call has as many
-- rounds at most as its list is long; `none` is a call that still runs after them. The slots'
-- numbers and items are functions of the slot.
pub mod Ring
pub mod Runs
use mxtasking.Prelude.{
  ℕ, zero, suc, ◌+◌, ◌-◌, ◌%◌, ◌^◌, Bool, true, false, ◌==◌, ltb, if◌then◌else◌, List, [], ◌∷◌,
  Option, none, some, add64, sub64,
}

pub record BoundQueue : Type 0 where
  pub capacity : ℕ
  pub sequence : ℕ → ℕ
  pub item : ℕ → ℕ
  pub head : ℕ
  pub tail : ℕ

abbrev pub store : (ℕ → ℕ) → ℕ → ℕ → ℕ → ℕ
store f slot v i = if slot == i then v else f i

-- The loop of the constructor, for the `left` slots from `i` on.
unfoldable pub number : (ℕ → ℕ) → ℕ → ℕ → ℕ → ℕ
number sequence zero i = sequence
number sequence (suc left) i = number (store sequence i i) left (i + 1)

-- The constructor; memset has cleared the slots.
unfoldable pub create : ℕ → BoundQueue
unfolding number
create capacity = record {
  capacity = capacity;
  sequence = number (λ _. 0) capacity 0;
  item = λ _. 0;
  head = 0;
  tail = 0;
}

-- `std::int64_t(a) - std::int64_t(b)`, as a word of 64 bits, and whether it is negative.
abbrev pub difference : ℕ → ℕ → ℕ
difference = sub64

abbrev pub is_negative : ℕ → Bool
is_negative d = ltb (2 ^ 63 - 1) d

-- Whether the item was inserted, and the queue. An exchange that fails reads the head again.
unfoldable pub try_push_back : List Bool → BoundQueue → ℕ → Option (Bool × BoundQueue)
try_push_back [] q item = none
try_push_back (fails ∷ later) q item =
    let pos = q.head in
    let slot = pos % q.capacity in
    let d = difference (q.sequence slot) pos in
    let rest = try_push_back later q item in
    if d == 0
    then (if fails
        then rest
        else some (
          true,
          record q {
            head = add64 pos 1;
            item = store q.item slot item;
            sequence = store q.sequence slot (add64 pos 1);
          },
        ))
    else if is_negative d
    then some (false, q)
    else rest

-- The item, when there is one, and the queue.
unfoldable pub try_pop_front : List Bool → BoundQueue → Option (Option ℕ × BoundQueue)
try_pop_front [] q = none
try_pop_front (fails ∷ later) q =
    let pos = q.tail in
    let slot = pos % q.capacity in
    let d = difference (q.sequence slot) (add64 pos 1) in
    let rest = try_pop_front later q in
    if d == 0
    then (if fails
        then rest
        else some (
          some (q.item slot),
          record q { tail = add64 pos 1; sequence = store q.sequence slot (add64 pos q.capacity) },
        ))
    else if is_negative d
    then some (none, q)
    else rest

unfoldable pub pop_front_or : List Bool → BoundQueue → ℕ → Option (ℕ × BoundQueue)
unfolding try_pop_front
pop_front_or fails q default_value = elim (try_pop_front fails q) [
  | none ↦ none
  | some (popped, q') ↦ some (elim popped [ none ↦ default_value | some x ↦ x ], q')
]

-- Calls of the queue, each with what its exchanges do: `tries` is `try_push_back` and `pops` is
-- `pop_front_or`.
pub data Op : Type 0 where
  tries : List Bool → ℕ → Op
  pops : List Bool → ℕ → Op

-- What the calls return, in order; 1 and 0 stand for true and false.
unfoldable pub run : BoundQueue → List Op → Option (List ℕ)
unfolding try_push_back pop_front_or
run q [] = some []
run q (tries fails x ∷ ops) = elim (try_push_back fails q x) [
  | none ↦ none
  | some (done, q') ↦ elim (run q' ops) [
    | none ↦ none
    | some results ↦ some ((if done then 1 else 0) ∷ results)
  ]
]
run q (pops fails default_value ∷ ops) = elim (pop_front_or fails q default_value) [
  | none ↦ none
  | some (x, q') ↦ elim (run q' ops) [ none ↦ none | some results ↦ some (x ∷ results) ]
]
