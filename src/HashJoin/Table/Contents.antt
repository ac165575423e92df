-- ===== src/HashJoin/Table/Contents.antt =====
-- What the table of application/hashjoin_benchmark/inline_hashtable.h holds: a map from keys to
-- values, which `insert` updates and `get` reads, and how many of its slots are in use.
use mxtasking.Prelude.{
  ℕ, zero, suc, ◌+◌, ◌/◌, sub64, ◌^◌, ◌≤◌, ◌<◌, ◌≡◌, ◌≢◌, refl, sym, ap, ◌∙◌, true, ◌==◌,
  if◌then◌else◌, some_injective, Option, some, arith, ℕ_discrete,
}
use native.Mathlib.Nat.{mod-lt}
use mathlib.Core.Path.{subst}
use mxtasking.Prelude.Bits.{pow_pos}
use mxtasking.HashJoin.Table.{
  hash, Table, Entry, store, clear, empty_entry, greatest_key, greatest_value, insert, get, create,
}
use mxtasking.HashJoin.Table.Probing.{
  stops, find, home, find-stops, find_free, store_self, store-ne, find-store_self, find-store_other,
  get-find, insert-find,
}
use mxtasking.HashJoin.Table.Usage.{used, used-store-le, used-free, used-empty}

-- What `get` returns for the slot where the search stops.
abbrev pub value_at : (ℕ → Entry) → ℕ → ℕ → ℕ
value_at entry key p = if (entry p).key == key then (entry p).value else greatest_value

abbrev pub search_for : Table → ℕ → Option ℕ
search_for t key = find t.slots t.slots t.entry key (home t.slots key)

-- The table stands for the map `f`, which has the greatest value where there is no key.
pub record Holds (t : Table) (f : ℕ → ℕ) : Type 0 where
  pub bits : ℕ
  pub power : t.slots ≡ 2 ^ bits
  pub small : t.slots ≤ 2 ^ 32
  pub placed :
      (p : ℕ) → p < t.slots → (t.entry p).key ≢ greatest_key → search_for t (t.entry p).key ≡ some p
  pub reads :
      (key p : ℕ) → key ≢ greatest_key → search_for t key ≡ some p → value_at t.entry key p ≡ f key

abbrev pub update : (ℕ → ℕ) → ℕ → ℕ → ℕ → ℕ
update f key value key' = if key == key' then value else f key'

abbrev pub HasRoom : Table → Type 0
HasRoom t = used t.entry t.slots < t.slots

home-lt : (t : Table) (f : ℕ → ℕ) → Holds t f → (key : ℕ) → home t.slots key < t.slots
home-lt t f h key = mod-lt (hash key) (omega (arith, h.power, pow_pos h.bits))

-- A table with a free slot ends every search.
pub search_for-some :
    (t : Table) (f : ℕ → ℕ)
    → Holds t f
    → HasRoom t
    → (key : ℕ) → (q : ℕ) × (search_for t key ≡ some q)
search_for-some t f h room key =
    let (p, lt, free) = used-free t.entry t.slots room in
    find_free t.slots t.entry key (home t.slots key) p (home-lt t f h key) lt free

pub get-Holds :
    (t : Table) (f : ℕ → ℕ)
    → Holds t f
    → HasRoom t
    → (key : ℕ) → key ≢ greatest_key
    → get t.slots t key ≡ some (f key)
get-Holds t f h room key n =
    let (q, e) = search_for-some t f h room key in
    get-find t h.bits h.power h.small t.slots key q e ∙ ap some (h.reads key q n e)

-- Writing a record to the slot where the search for its key stops.
module _ (t : Table) (f : ℕ → ℕ) (h : Holds t f) (room : HasRoom t) (e : Entry) (q : ℕ)
    (n : e.key ≢ greatest_key) (here : search_for t e.key ≡ some q) where
  abbrev after : Table
  after = record t { entry = store t.entry q e }

  stops_here : (q < t.slots) × (stops t.entry e.key q ≡ true)
  stops_here =
      find-stops t.slots t.slots t.entry e.key (home t.slots e.key) q (home-lt t f h e.key) here

  store-placed :
      (p : ℕ)
      → p < t.slots
      → (after.entry p).key ≢ greatest_key
      → search_for after (after.entry p).key ≡ some p
  store-placed p lt m = elim (ℕ_discrete p q) [
    | yes w ↦
        rw (w, store_self t.entry q e)
          (find-store_self t.slots t.entry e q stops_here.1 t.slots (home t.slots e.key) here)
    | no w ↦
        let kept : store t.entry q e p ≡ t.entry p = store-ne t.entry q p e w in
        let m' : (t.entry p).key ≢ greatest_key = rw kept at m in
        let old = h.placed p lt m' in
        let other : (t.entry p).key ≢ e.key = λ (v : (t.entry p).key ≡ e.key).
          w (some_injective (sym old ∙ ap (search_for t) v ∙ here)) in
        rw kept (
          find-store_other t.slots t.entry e q stops_here.1 t.slots (t.entry p).key
            (home t.slots (t.entry p).key) p other n w old)
  ]

  store-reads :
      (key p : ℕ)
      → key ≢ greatest_key
      → search_for after key ≡ some p
      → value_at after.entry key p ≡ update f e.key e.value key
  store-reads key p m found = elim (ℕ_discrete key e.key) [
    | yes w ↦
        let e' : search_for after e.key ≡ some p =
          subst (λ k. search_for after k ≡ some p) w found in
        let self =
          find-store_self t.slots t.entry e q stops_here.1 t.slots (home t.slots e.key) here in
        let at_q : p ≡ q = some_injective (sym e' ∙ self) in
        rw (at_q, store_self t.entry q e) (ground arith)
    | no w ↦
        let (r, old) = search_for-some t f h room key in
        elim (ℕ_discrete r q) [
          | yes v ↦
              let stop : stops t.entry key q ≡ true =
                (find-stops t.slots t.slots t.entry key (home t.slots key) q (home-lt t f h key)
                  (old ∙ ap some v)).1 in
              let was : value_at t.entry key q ≡ f key = h.reads key q m (old ∙ ap some v) in
              let there =
                (find-stops t.slots t.slots after.entry key (home t.slots key) p (home-lt t f h key)
                  found).0 in
              let absent : f key ≡ greatest_value = ground (arith, stops_here.1) in
              elim (ℕ_discrete p q) [
                | yes u ↦ rw (u, store_self t.entry q e) (ground arith)
                | no u ↦
                    let missing : (t.entry p).key ≢ key = λ (z : (t.entry p).key ≡ key). u (
                      some_injective (
                        sym (h.placed p there (λ g. m (sym z ∙ g)))
                        ∙ ap (search_for t) z
                        ∙ old
                        ∙ ap some v)) in
                    rw (store-ne t.entry q p e u) (ground arith)
              ]
          | no v ↦
              let found' : search_for after key ≡ some r =
                find-store_other t.slots t.entry e q stops_here.1 t.slots key (home t.slots key) r w
                  n v old in
              let at_r : p ≡ r = some_injective (sym found ∙ found') in
              let was : value_at t.entry key r ≡ f key = h.reads key r m old in
              rw (at_r, store-ne t.entry q r e v) (ground arith)
        ]
  ]

  store-Holds : Holds after (update f e.key e.value)
  store-Holds = record {
    bits = h.bits;
    power = h.power;
    small = h.small;
    placed = store-placed;
    reads = store-reads;
  }

-- With a free slot, `insert` ends, and updates the map.
pub insert-Holds :
    (t : Table) (f : ℕ → ℕ)
    → Holds t f
    → HasRoom t
    → (key value : ℕ) → key ≢ greatest_key
    → (t' : Table) × (insert t.slots t key value ≡ some t')
      × Holds t' (update f key value)
      × (t'.slots ≡ t.slots)
      × (used t'.entry t'.slots ≤ used t.entry t.slots + 1)
insert-Holds t f h room key value n =
    let (q, here) = search_for-some t f h room key in
    let e : Entry = record { key = key; value = value } in
    (
      record t { entry = store t.entry q e },
      insert-find t h.bits h.power h.small t.slots key value q here,
      store-Holds t f h room e q n here,
      refl,
      used-store-le t.entry q e t.slots,
    )

-- A new table.
clear-empty :
    (left i : ℕ) (entry : ℕ → Entry) (p : ℕ)
    → p < i + left
    → (p < i → (entry p).key ≡ greatest_key)
    → (clear entry left i p).key ≡ greatest_key
unfolding clear
clear-empty zero i entry p h old = old (omega arith)
clear-empty (suc left) i entry p h old =
    clear-empty left (i + 1) (store entry i empty_entry) p (omega arith) λ lt.
      elim (ℕ_discrete p i) [
        | yes w ↦ rw (w, store_self entry i empty_entry) refl
        | no w ↦ rw (store-ne entry i p empty_entry w) (old (omega arith))
      ]

pub create-Holds :
    (size bits : ℕ) (memory : ℕ → Entry)
    → sub64 size 8 / 16 ≡ 2 ^ bits
    → 2 ^ bits ≤ 2 ^ 32
    → Holds (create size memory) (λ _. greatest_value)
      × (used (create size memory).entry (create size memory).slots ≡ 0)
unfolding create
create-Holds size bits memory power small =
    let slots = sub64 size 8 / 16 in
    let free : (p : ℕ) → p < slots → (clear memory slots 0 p).key ≡ greatest_key =
      λ p lt. clear-empty slots 0 memory p (omega arith) (λ w. absurd (omega arith)) in
    (
      record {
        bits = bits;
        power = power;
        small = rw power small;
        placed = λ p lt n. absurd (n (free p lt));
        reads = λ key p n e.
            let lt =
              (find-stops slots slots (clear memory slots 0) key (home slots key) p
                (mod-lt (hash key) (omega (arith, power, pow_pos bits))) e).0 in
            ground (arith, free p lt);
      },
      used-empty (clear memory slots 0) slots free,
    )
