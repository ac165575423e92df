-- ===== src/Util/BoundQueue/Ring.antt =====
-- The slots of mx/util/bound_mpmc_queue.h around the ring, and the items that they hold.
use native.Mathlib.Nat.{div-add-mod, mod-eq_of_lt, add-mul-mod_self_left}
use mxtasking.Prelude.{
  ℕ, zero, suc, ◌+◌, ◌-◌, ◌*◌, ◌/◌, ◌%◌, ◌^◌, ◌≤◌, ◌<◌, ◌≡◌, ◌≢◌, ap, ◌∙◌, List, [], ◌∷◌, length,
  arith, dec_lt, ℕ_discrete,
}
use mxtasking.Util.BoundQueue.{BoundQueue, store, number, create}

pub add_self-mod : (a c : ℕ) → 0 < c → (a + c) % c ≡ a % c
add_self-mod a c pos =
    ap (λ (n : ℕ). n % c) (let e : a + c ≡ a + c * 1 = omega arith in e)
    ∙ add-mul-mod_self_left a c 1

-- Two positions less than a round apart have different slots.
pub mod_apart : (a b c : ℕ) → a < b → b < a + c → a % c ≢ b % c
mod_apart a b c lt near e =
    let qa = a / c in
    let qb = b / c in
    let ea = div-add-mod a c in
    let eb = div-add-mod b c in
    elim (dec_lt qa qb) [
      | yes l ↦
          let k : ℕ = qb - qa - 1 in
          let w : qb ≡ qa + 1 + k = omega arith in
          let m : c * qb ≡ c * qa + c + c * k = ap (λ (q : ℕ). c * q) w ∙ (grind arith) in
          omega (arith, ea, eb, m, e)
      | no l ↦
          let k : ℕ = qa - qb in
          let w : qa ≡ qb + k = omega arith in
          let m : c * qa ≡ c * qb + c * k = ap (λ (q : ℕ). c * q) w ∙ (grind arith) in
          omega (arith, ea, eb, m, e)
    ]

pub store_self : (f : ℕ → ℕ) (s v : ℕ) → store f s v s ≡ v
store_self f s v = ground arith

pub store-ne : (f : ℕ → ℕ) (s v i : ℕ) → s ≢ i → store f s v i ≡ f i
store-ne f s v i n = ground arith

-- The slots from position `p` on hold the items.
abbrev pub Window : BoundQueue → ℕ → List ℕ → Type 0
Window q p [] = Unit {0}
Window q p (x ∷ xs) =
    (q.item (p % q.capacity) ≡ x) × (q.sequence (p % q.capacity) ≡ p + 1) × Window q (p + 1) xs

-- The queue has the items, oldest first; the positions behind them are free.
pub record HasItems (q : BoundQueue) (xs : List ℕ) : Type 0 where
  pub two : 2 ≤ q.capacity
  pub small : q.capacity < 2 ^ 16
  pub items : Window q q.tail xs
  pub ends : q.head ≡ q.tail + length xs
  pub fits : length xs ≤ q.capacity
  pub free : (p : ℕ) → q.head ≤ p → p < q.tail + q.capacity → q.sequence (p % q.capacity) ≡ p

number-lt :
    (left i : ℕ) (sequence : ℕ → ℕ) (p : ℕ)
    → p < i + left
    → (p < i → sequence p ≡ p)
    → number sequence left i p ≡ p
unfolding number
number-lt zero i sequence p h old = old (omega arith)
number-lt (suc left) i sequence p h old =
    number-lt left (i + 1) (store sequence i i) p (omega arith) λ lt. elim (ℕ_discrete i p) [
      | yes e ↦ ground arith
      | no n ↦ store-ne sequence i i p n ∙ old (omega arith)
    ]

pub create-HasItems :
    (capacity : ℕ) → 2 ≤ capacity → capacity < 2 ^ 16 → HasItems (create capacity) []
unfolding create
create-HasItems capacity two small = record {
  two = two;
  small = small;
  items = tt;
  ends = omega arith;
  fits = omega arith;
  free = λ p h lt.
      let w : p % capacity ≡ p = mod-eq_of_lt (omega arith) in
      rw w (number-lt capacity 0 (λ _. 0) p (omega arith) (λ b. absurd (omega arith)));
}
