-- ===== src/HashJoin/Table/Probing.antt =====
-- The slots that application/hashjoin_benchmark/inline_hashtable.h visits for a key: where the
-- search stops, what a write to that slot changes, and that a free slot ends it.
use Prim.Native.Nat.{bit_and}
use native.Mathlib.Nat.{mod-lt, mod-eq_of_lt, mod_self}
use mxtasking.Prelude.{
  ℕ, zero, suc, ◌+◌, ◌-◌, ◌%◌, ◌^◌, ◌≤◌, ◌<◌, ◌≡◌, ◌≢◌, refl, sym, ap, ◌∙◌, Bool, true, false, ◌||◌,
  ◌==◌, if◌then◌else◌, Bool-cases, leb, Option, none, some, inl, inr, arith, ℕ_discrete, add64,
  sub64,
}
use mxtasking.Prelude.Bits.{bit_and-mask, pow_pos}
use mxtasking.HashJoin.Table.{
  Table, Entry, store, mask, greatest_key, greatest_value, insert_loop, get_loop, insert, get, hash,
}

-- The slot behind `p`, around the end of the table.
abbrev pub next_slot : ℕ → ℕ → ℕ
next_slot slots p = if p + 1 == slots then 0 else p + 1

abbrev pub stops : (ℕ → Entry) → ℕ → ℕ → Bool
stops entry key p = ((entry p).key == key) || ((entry p).key == greatest_key)

-- The first slot from `p` on that has the key or is free.
unfoldable pub find : ℕ → ℕ → (ℕ → Entry) → ℕ → ℕ → Option ℕ
find zero slots entry key p = none
find (suc fuel) slots entry key p =
    let rest = find fuel slots entry key (next_slot slots p) in
    if stops entry key p then some p else rest

pub find-stops :
    (fuel slots : ℕ) (entry : ℕ → Entry) (key p q : ℕ)
    → p < slots
    → find fuel slots entry key p ≡ some q
    → (q < slots) × (stops entry key q ≡ true)
unfolding find
find-stops zero slots entry key p q h e = absurd (cc)
find-stops (suc fuel) slots entry key p q h e = elim (Bool-cases (stops entry key p)) [
  | inl t ↦ let same : p ≡ q = grind arith in rw (sym same) (h, t)
  | inr t ↦ find-stops fuel slots entry key (next_slot slots p) q (ground arith) (rw t at e)
]

-- How far `q` is behind `p`, around the end of the table.
distance : ℕ → ℕ → ℕ → ℕ
distance slots p q = if leb p q then q - p else q + slots - p

distance-next :
    (slots p q : ℕ)
    → p < slots
    → q < slots
    → p ≢ q
    → suc (distance slots (next_slot slots p) q) ≡ distance slots p q
unfolding distance
distance-next slots p q hp hq n = ground arith

-- A free slot ends the search, with one round per slot.
find_within :
    (fuel slots : ℕ) (entry : ℕ → Entry) (key p q : ℕ)
    → p < slots
    → q < slots
    → (entry q).key ≡ greatest_key
    → distance slots p q < fuel
    → (r : ℕ) × (find fuel slots entry key p ≡ some r)
unfolding find
find_within zero slots entry key p q hp hq free h = absurd (omega arith)
find_within (suc fuel) slots entry key p q hp hq free h = elim (Bool-cases (stops entry key p)) [
  | inl t ↦ (p, rw t refl)
  | inr t ↦
      let apart : p ≢ q = λ e. grind arith in
      rw t (
        find_within fuel slots entry key (next_slot slots p) q (ground arith) hq free
          (omega (arith, distance-next slots p q hp hq apart)))
]

distance-lt : (slots p q : ℕ) → p < slots → q < slots → distance slots p q < slots
unfolding distance
distance-lt slots p q hp hq = ground arith

pub find_free :
    (slots : ℕ) (entry : ℕ → Entry) (key p q : ℕ)
    → p < slots
    → q < slots
    → (entry q).key ≡ greatest_key
    → (r : ℕ) × (find slots slots entry key p ≡ some r)
find_free slots entry key p q hp hq free =
    find_within slots slots entry key p q hp hq free (distance-lt slots p q hp hq)

pub stops-store_ne :
    (entry : ℕ → Entry) (e : Entry) (q key p : ℕ)
    → p ≢ q
    → stops (store entry q e) key p ≡ stops entry key p
stops-store_ne entry e q key p n = let w : (q == p) ≡ false = ground arith in rw w refl

pub store_self : (entry : ℕ → Entry) (q : ℕ) (e : Entry) → store entry q e q ≡ e
store_self entry q e = let w : (q == q) ≡ true = ground arith in rw w refl

pub store-ne : (entry : ℕ → Entry) (q p : ℕ) (e : Entry) → p ≢ q → store entry q e p ≡ entry p
store-ne entry q p e n = let w : (q == p) ≡ false = ground arith in rw w refl

-- Writing a record to the slot where the search for its key stopped.
module _ (slots : ℕ) (entry : ℕ → Entry) (e : Entry) (q : ℕ) (s : stops entry e.key q ≡ true) where
  pub find-store_self :
      (fuel p : ℕ)
      → find fuel slots entry e.key p ≡ some q
      → find fuel slots (store entry q e) e.key p ≡ some q
  unfolding find
  find-store_self zero p h = absurd (cc)
  find-store_self (suc fuel) p h = elim (Bool-cases (stops entry e.key p)) [
    | inl t ↦
        let same : p ≡ q = grind arith in
        let stop : stops (store entry q e) e.key q ≡ true =
          rw (store_self entry q e) (ground arith) in
        rw (same, stop) refl
    | inr t ↦
        let apart : p ≢ q =
          λ w. let v : true ≡ false = sym s ∙ ap (stops entry e.key) (sym w) ∙ t in cc in
        rw (stops-store_ne entry e q e.key p apart, t)
          (find-store_self fuel (next_slot slots p) (rw t at h))
  ]

  pub find-store_other :
      (fuel key p r : ℕ)
      → key ≢ e.key
      → e.key ≢ greatest_key
      → r ≢ q
      → find fuel slots entry key p ≡ some r
      → find fuel slots (store entry q e) key p ≡ some r
  unfolding find
  find-store_other zero key p r ne ng nq h = absurd (cc)
  find-store_other (suc fuel) key p r ne ng nq h = elim (Bool-cases (stops entry key p)) [
    | inl t ↦
        let same : p ≡ r = grind arith in
        let stop : stops entry key r ≡ true = ap (stops entry key) (sym same) ∙ t in
        rw (same, stops-store_ne entry e q key r nq, stop) refl
    | inr t ↦
        let passes : stops (store entry q e) key p ≡ false = elim (ℕ_discrete p q) [
          | yes w ↦ rw (w, store_self entry q e) (ground arith)
          | no n ↦ stops-store_ne entry e q key p n ∙ t
        ] in
        rw passes (find-store_other fuel key (next_slot slots p) r ne ng nq (rw t at h))
  ]

-- The slot where the search for a key begins.
abbrev pub home : ℕ → ℕ → ℕ
home slots key = hash key % slots

-- The table has a power of two of slots.
module _ (t : Table) (bits : ℕ) (power : t.slots ≡ 2 ^ bits) (small : t.slots ≤ 2 ^ 32) where
  pub mask-mod : (index : ℕ) → mask t index ≡ index % t.slots
  unfolding mask
  mask-mod index =
      let ones : sub64 t.slots 1 ≡ 2 ^ bits - 1 = omega (arith, power, pow_pos bits) in
      ap (bit_and index) ones ∙ bit_and-mask bits index ∙ ap (λ (n : ℕ). index % n) (sym power)

  mask-next : (p : ℕ) → p < t.slots → mask t (add64 p 1) ≡ next_slot t.slots p
  mask-next p h = elim (ℕ_discrete (p + 1) t.slots) [
    | yes e ↦
        let w : (p + 1 == t.slots) ≡ true = ground arith in
        let v : add64 p 1 ≡ t.slots = omega arith in rw (w, v) (mask-mod t.slots ∙ mod_self t.slots)
    | no n ↦
        let w : (p + 1 == t.slots) ≡ false = ground arith in
        let v : add64 p 1 ≡ p + 1 = omega arith in
        rw (w, v) (mask-mod (p + 1) ∙ mod-eq_of_lt (omega arith))
  ]

  get_loop-find :
      (fuel key index p q : ℕ)
      → mask t index ≡ p
      → p < t.slots
      → find fuel t.slots t.entry key p ≡ some q
      → get_loop fuel t key index
        ≡ some (if (t.entry q).key == key then (t.entry q).value else greatest_value)
  unfolding find get_loop
  get_loop-find zero key index p q m h e = absurd (cc)
  get_loop-find (suc fuel) key index p q m h e = elim (Bool-cases (stops t.entry key p)) [
    | inl w ↦
        let same : p ≡ q = grind arith in
        let stop : stops t.entry key q ≡ true = ap (stops t.entry key) (sym same) ∙ w in
        rw (m, same) (ground arith)
    | inr w ↦
        let rest =
          get_loop-find fuel key (add64 p 1) (next_slot t.slots p) q (mask-next p h) (ground arith)
            (rw w at e) in
        let other : ((t.entry p).key == key) ≡ false = ground arith in
        let used : ((t.entry p).key == greatest_key) ≡ false = ground arith in
        rw (m, other, used) rest
  ]

  insert_loop-find :
      (fuel key value index p q : ℕ)
      → mask t index ≡ p
      → p < t.slots
      → find fuel t.slots t.entry key p ≡ some q
      → insert_loop fuel t key value index
        ≡ some (record t { entry = store t.entry q (record { key = key; value = value }) })
  unfolding find insert_loop
  insert_loop-find zero key value index p q m h e = absurd (cc)
  insert_loop-find (suc fuel) key value index p q m h e = elim (Bool-cases (stops t.entry key p)) [
    | inl w ↦
        let same : p ≡ q = grind arith in
        let stop : stops t.entry key q ≡ true = ap (stops t.entry key) (sym same) ∙ w in
        rw (m, same) (ground arith)
    | inr w ↦
        let rest =
          insert_loop-find fuel key value (add64 p 1) (next_slot t.slots p) q (mask-next p h)
            (ground arith) (rw w at e) in
        let other : ((t.entry p).key == key) ≡ false = ground arith in
        let used : ((t.entry p).key == greatest_key) ≡ false = ground arith in
        rw (m, other, used) rest
  ]

  -- Both loops end where the search stops.
  pub get-find :
      (fuel key q : ℕ)
      → find fuel t.slots t.entry key (home t.slots key) ≡ some q
      → get fuel t key ≡ some (if (t.entry q).key == key then (t.entry q).value else greatest_value)
  unfolding get
  get-find fuel key q e =
      get_loop-find fuel key (hash key) (home t.slots key) q (mask-mod (hash key))
        (mod-lt (hash key) (omega (arith, power, pow_pos bits))) e

  pub insert-find :
      (fuel key value q : ℕ)
      → find fuel t.slots t.entry key (home t.slots key) ≡ some q
      → insert fuel t key value
        ≡ some (record t { entry = store t.entry q (record { key = key; value = value }) })
  unfolding insert
  insert-find fuel key value q e =
      insert_loop-find fuel key value (hash key) (home t.slots key) q (mask-mod (hash key))
        (mod-lt (hash key) (omega (arith, power, pow_pos bits))) e
