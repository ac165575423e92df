-- ===== src/HashJoin/Join/Correct.antt =====
-- The build and probe tasks of application/hashjoin_benchmark compute a join.
use mathlib.Core.Path.{subst}
use mxtasking.Prelude.{
  ℕ, ◌+◌, ◌/◌, ◌^◌, ◌<◌, ◌≡◌, ◌≢◌, refl, sym, ap, ◌∙◌, List, [], ◌∷◌, ◌++◌, Option, none, some,
  ◌==◌, if◌then◌else◌, Option-cases, inl, inr, length, arith, sub64, append_assoc, append-nil,
  false,
}
use mxtasking.HashJoin.Table.{Table, Entry, create, greatest_key, greatest_value}
use mxtasking.HashJoin.Table.Usage.{used}
use mxtasking.HashJoin.Table.Contents.{
  Holds, HasRoom, update, get-Holds, insert-Holds, create-Holds,
}
use mxtasking.HashJoin.Join.{emplace_back, build, probe}

-- The specification. A later row replaces an earlier one with its key.
unfoldable pub last_row : List (ℕ × ℕ) → ℕ → Option ℕ
last_row [] key = none
last_row (row ∷ rows) key = elim (last_row rows key) [
  | some r ↦ some r
  | none ↦ if row.1 == key then some row.0 else none
]

unfoldable pub join : List (ℕ × ℕ) → List (ℕ × ℕ) → List (ℕ × ℕ)
unfolding last_row
join rows [] = []
join rows (key ∷ keys) = elim (last_row rows key.1) [
  | none ↦ join rows keys
  | some r ↦ (key.0, r) ∷ join rows keys
]

-- No row has the key of a free slot, or the id that stands for no row.
abbrev pub HasKeys : List (ℕ × ℕ) → Type 0
HasKeys [] = Unit {0}
HasKeys (row ∷ rows) = (row.1 ≢ greatest_key) × HasKeys rows

abbrev pub HasIds : List (ℕ × ℕ) → Type 0
HasIds [] = Unit {0}
HasIds (row ∷ rows) = (row.0 ≢ greatest_value) × HasIds rows

-- The map behind the table after the rows.
overlay : (ℕ → ℕ) → List (ℕ × ℕ) → ℕ → ℕ
overlay f [] = f
overlay f (row ∷ rows) = overlay (update f row.1 row.0) rows

overlay-last_row :
    (f : ℕ → ℕ) (rows : List (ℕ × ℕ)) (key : ℕ)
    → overlay f rows key ≡ elim (last_row rows key) [ none ↦ f key | some r ↦ r ]
unfolding overlay last_row
overlay-last_row f [] key = refl
overlay-last_row f (row ∷ rows) key = elim (Option-cases (last_row rows key)) [
  | inl e ↦ rw (overlay-last_row (update f row.1 row.0) rows key, e) (ground arith)
  | inr (r, e) ↦ rw (overlay-last_row (update f row.1 row.0) rows key, e) refl
]

build-Holds :
    (rows : List (ℕ × ℕ)) (t : Table) (f : ℕ → ℕ)
    → Holds t f
    → HasKeys rows
    → used t.entry t.slots + length rows < t.slots
    → (t' : Table) × (build t.slots t rows ≡ some t')
      × Holds t' (overlay f rows)
      × (t'.slots ≡ t.slots)
      × HasRoom t'
unfolding build overlay
build-Holds [] t f h n room = (t, refl, h, refl, omega arith)
build-Holds (row ∷ rows) t f h n room =
    let (t', e, h', same, few) = insert-Holds t f h (omega arith) row.1 row.0 n.0 in
    let (t'', e', h'', same', room') =
      build-Holds rows t' (update f row.1 row.0) h' n.1 (omega (arith, same, few)) in
    (t'', rw (e, build) (subst (λ n. build n t' rows ≡ some t'') same e'), h'', same' ∙ same, room')

last_row-HasIds :
    (rows : List (ℕ × ℕ)) (key r : ℕ)
    → HasIds rows
    → last_row rows key ≡ some r
    → r ≢ greatest_value
unfolding last_row
last_row-HasIds [] key r n e = absurd (cc)
last_row-HasIds (row ∷ rows) key r n e = elim (Option-cases (last_row rows key)) [
  | inl w ↦ grind arith
  | inr (s, w) ↦ last_row-HasIds rows key r n.1 (w ∙ (rw w at e))
]

probe-join :
    (rows keys result_set : List (ℕ × ℕ)) (t : Table)
    → Holds t (overlay (λ _. greatest_value) rows)
    → HasRoom t
    → HasKeys keys
    → HasIds rows
    → probe t.slots t keys result_set ≡ some (result_set ++ join rows keys)
unfolding probe join
probe-join rows [] result_set t h room n ids = ap some (sym (append-nil result_set))
probe-join rows (key ∷ keys) result_set t h room n ids =
    let found = get-Holds t (overlay (λ _. greatest_value) rows) h room key.1 n.0 in
    let value = overlay-last_row (λ _. greatest_value) rows key.1 in
    elim (Option-cases (last_row rows key.1)) [
      | inl e ↦
          let w : overlay (λ _. greatest_value) rows key.1 ≡ greatest_value = rw e at value in
          rw (found, w, e, probe, join) (probe-join rows keys result_set t h room n.1 ids)
      | inr (r, e) ↦
          let w : overlay (λ _. greatest_value) rows key.1 ≡ r = rw e at value in
          let v : (r == greatest_value) ≡ false =
            ground (arith, last_row-HasIds rows key.1 r ids e) in
          rw (found, w, e, v, probe, join)
            (probe-join rows keys (emplace_back result_set key.0 r) t h room n.1 ids
              ∙ ap some (append_assoc result_set ((key.0, r) ∷ []) (join rows keys)))
    ]

-- A table for 2 ^ bits entries, fewer than 2 ^ 32, is built from fewer rows, none of which has the key of a free slot or
-- the id that stands for no row. Then the build task ends, and the probe task ends with the join:
-- each probed row, in order, whose key a built row has, with the last such row.
pub probe-build :
    (size bits : ℕ) (memory : ℕ → Entry) (rows keys : List (ℕ × ℕ))
    → sub64 size 8 / 16 ≡ 2 ^ bits
    → 2 ^ bits < 2 ^ 32
    → length rows < 2 ^ bits
    → HasKeys rows
    → HasIds rows
    → HasKeys keys
    → (t : Table) × (build (2 ^ bits) (create size memory) rows ≡ some t)
      × (probe (2 ^ bits) t keys [] ≡ some (join rows keys))
unfolding create
probe-build size bits memory rows keys power small few filled ids probed =
    let (h, none_used) = create-Holds size bits memory power (omega arith) in
    let new = create size memory in
    let (t, e, h', same, room) =
      build-Holds rows new (λ _. greatest_value) h filled (omega (arith, none_used, power)) in
    (
      t,
      subst (λ n. build n new rows ≡ some t) power e,
      subst (λ n. probe n t keys [] ≡ some (join rows keys)) (same ∙ power)
          (probe-join rows keys [] t h' room probed ids),
    )
