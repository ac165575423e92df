-- ===== src/HashJoin/Table/Usage.antt =====
-- How many slots of a table of application/hashjoin_benchmark/inline_hashtable.h are in use.
use mxtasking.Prelude.{
  ℕ, zero, suc, ◌+◌, ◌≤◌, ◌<◌, ◌≡◌, refl, ◌==◌, if◌then◌else◌, Bool-cases, inl, inr, arith,
  ℕ_discrete,
}
use mxtasking.HashJoin.Table.{Entry, store, greatest_key}
use mxtasking.HashJoin.Table.Probing.{store-ne}

-- How many of the first `n` slots have a key.
unfoldable pub used : (ℕ → Entry) → ℕ → ℕ
used entry zero = 0
used entry (suc n) = if (entry n).key == greatest_key then used entry n else used entry n + 1

used-store_behind :
    (entry : ℕ → Entry) (q : ℕ) (e : Entry) (n : ℕ)
    → n ≤ q
    → used (store entry q e) n ≡ used entry n
unfolding used
used-store_behind entry q e zero h = refl
used-store_behind entry q e (suc n) h =
    rw (store-ne entry q n e (omega arith), used-store_behind entry q e n (omega arith)) refl

pub used-store-le :
    (entry : ℕ → Entry) (q : ℕ) (e : Entry) (n : ℕ) → used (store entry q e) n ≤ used entry n + 1
unfolding used
used-store-le entry q e zero = omega arith
used-store-le entry q e (suc n) = elim (ℕ_discrete n q) [
  | yes w ↦ ground (arith, used-store_behind entry q e n (omega arith))
  | no w ↦ rw (store-ne entry q n e w) (ground (arith, used-store-le entry q e n))
]

pub used-free :
    (entry : ℕ → Entry) (n : ℕ)
    → used entry n < n
    → (p : ℕ) × (p < n) × ((entry p).key ≡ greatest_key)
unfolding used
used-free entry zero h = absurd (omega arith)
used-free entry (suc n) h = elim (Bool-cases ((entry n).key == greatest_key)) [
  | inl t ↦ (n, omega arith, ground arith)
  | inr t ↦ let (p, lt, e) = used-free entry n (ground arith) in (p, omega arith, e)
]

pub used-empty :
    (entry : ℕ → Entry) (n : ℕ)
    → ((p : ℕ) → p < n → (entry p).key ≡ greatest_key)
    → used entry n ≡ 0
unfolding used
used-empty entry zero h = refl
used-empty entry (suc n) h =
    rw (h n (omega arith), used-empty entry n (λ p lt. h p (omega arith))) refl
