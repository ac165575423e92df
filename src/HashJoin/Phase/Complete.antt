-- ===== src/HashJoin/Phase/Complete.antt =====
-- When the listener of application/hashjoin_benchmark/listener.h ends a phase.
use mathlib.Core.Path.{subst}
use mxtasking.Prelude.{
  ℕ, zero, suc, ◌+◌, ◌-◌, ◌^◌, ◌≤◌, ◌<◌, ◌≡◌, refl, sym, ap, true, false, ltb, ◌==◌, if◌then◌else◌,
  Bool-cases, inl, inr, List, [], ◌∷◌, arith, ℕ_discrete,
}
use mxtasking.HashJoin.Phase.{Listener, decrement, notify, after}

unfoldable pub count : ℕ → List ℕ → ℕ
count channel [] = 0
count channel (x ∷ xs) = if x == channel then count channel xs + 1 else count channel xs

-- How many of the first `n` channels miss a notification.
unfoldable pub incomplete : ℕ → List ℕ → ℕ → ℕ
unfolding count
incomplete count_cores xs zero = 0
incomplete count_cores xs (suc n) =
    if count n xs == count_cores
    then incomplete count_cores xs n
    else incomplete count_cores xs n + 1

-- The notifications that have run: each core's partition task sends one to a channel.
pub record IsHistory (count_cores : ℕ) (xs : List ℕ) : Type 0 where
  pub below : (channel : ℕ) → count_cores ≤ channel → count channel xs ≡ 0
  pub most : (channel : ℕ) → count channel xs ≤ count_cores

count-le : (channel x : ℕ) (xs : List ℕ) → count channel xs ≤ count channel (x ∷ xs)
unfolding count
count-le channel x xs = ground arith

IsHistory-tail : (n x : ℕ) (xs : List ℕ) → IsHistory n (x ∷ xs) → IsHistory n xs
IsHistory-tail n x xs h = record {
  below = λ c b. omega (arith, h.below c b, count-le c x xs);
  most = λ c. omega (arith, h.most c, count-le c x xs);
}

IsHistory-head : (n x : ℕ) (xs : List ℕ) → IsHistory n (x ∷ xs) → (x < n) × (count x xs < n)
unfolding count
IsHistory-head n x xs h = ground (arith, h.below x, h.most x)

incomplete_initial : (n k : ℕ) → 0 < n → incomplete n [] k ≡ k
unfolding incomplete
incomplete_initial n zero h = refl
incomplete_initial n (suc k) h = ground (arith, incomplete_initial n k h)

incomplete_behind :
    (n x : ℕ) (xs : List ℕ) (k : ℕ) → k ≤ x → incomplete n (x ∷ xs) k ≡ incomplete n xs k
unfolding incomplete count
incomplete_behind n x xs zero h = refl
incomplete_behind n x xs (suc k) h =
    let other : (x == k) ≡ false = ground arith in
    rw (other, incomplete_behind n x xs k (omega arith)) refl

incomplete-cons :
    (n x : ℕ) (xs : List ℕ) (k : ℕ)
    → x < k
    → count x xs < n
    → incomplete n xs k ≡ incomplete n (x ∷ xs) k + (if count x xs + 1 == n then 1 else 0)
unfolding incomplete count
incomplete-cons n x xs zero h few = absurd (omega arith)
incomplete-cons n x xs (suc k) h few = elim (ℕ_discrete x k) [
  | yes e ↦
      let here : (x == k) ≡ true = ground arith in
      let same : count x xs ≡ count k xs = ap (λ (c : ℕ). count c xs) e in
      rw here (ground (arith, incomplete_behind n x xs k (omega arith)))
  | no m ↦
      let other : (x == k) ≡ false = ground arith in
      rw other (ground (arith, incomplete-cons n x xs k (omega arith) few))
]

incomplete-le : (n : ℕ) (xs : List ℕ) (k : ℕ) → incomplete n xs k ≤ k
unfolding incomplete
incomplete-le n xs zero = omega arith
incomplete-le n xs (suc k) = ground (arith, incomplete-le n xs k)

incomplete_pos : (n : ℕ) (xs : List ℕ) (k x : ℕ) → x < k → count x xs < n → 0 < incomplete n xs k
unfolding incomplete
incomplete_pos n xs zero x h few = absurd (omega arith)
incomplete_pos n xs (suc k) x h few = elim (ℕ_discrete x k) [
  | yes e ↦ let w : count k xs < n = subst (λ c. count c xs < n) e few in ground arith
  | no m ↦ ground (arith, incomplete_pos n xs k x (omega arith) few)
]

-- The counters say what is missing.
record Counts (n : ℕ) (xs : List ℕ) (l : Listener) : Type 0 where
  local : (c : ℕ) → c < n → l.pending_local c + count c xs ≡ n
  global : l.pending_global ≡ incomplete n xs n

notify-Counts :
    (n : ℕ) (xs : List ℕ) (l : Listener) (x : ℕ)
    → n < 2 ^ 32
    → IsHistory n (x ∷ xs)
    → Counts n xs l
    → Counts n (x ∷ xs) (notify l x).0 × ((notify l x).1 ≡ (incomplete n (x ∷ xs) n == 0))
unfolding notify count
notify-Counts n xs l x small h k =
    let (lt, few) = IsHistory-head n x xs h in
    let local' : decrement (l.pending_local x) ≡ n - (count x xs + 1) =
      omega (arith, k.local x lt) in
    let step = incomplete-cons n x xs n lt few in
    let pos : 0 < incomplete n xs n = incomplete_pos n xs n x lt few in
    let global' : decrement l.pending_global ≡ incomplete n xs n - 1 =
      omega (arith, k.global, incomplete-le n xs n) in
    let locals : (c : ℕ)
        → c < n
        → (if x == c then decrement (l.pending_local x) else l.pending_local c) + count c (x ∷ xs)
          ≡ n =
      λ c b. elim (ℕ_discrete x c) [
        | yes e ↦
            let here : (x == c) ≡ true = ground arith in
            let same : count x xs ≡ count c xs = ap (λ (d : ℕ). count d xs) e in
            rw here (omega (arith, local', same))
        | no m ↦ let other : (x == c) ≡ false = ground arith in rw other (k.local c b)
      ] in
    elim (Bool-cases (decrement (l.pending_local x) == 0)) [
      | inl z ↦
          let done : (count x xs + 1 == n) ≡ true = ground arith in
          let step' : incomplete n xs n ≡ incomplete n (x ∷ xs) n + 1 = rw done at step in
          let fewer : decrement l.pending_global ≡ incomplete n (x ∷ xs) n =
            omega (arith, global', step') in
          rw z (record { local = locals; global = fewer }, ap (λ (g : ℕ). g == 0) fewer)
      | inr z ↦
          let missing : (count x xs + 1 == n) ≡ false = ground arith in
          let step' : incomplete n xs n ≡ incomplete n (x ∷ xs) n + 0 = rw missing at step in
          rw z (record { local = locals; global = omega (arith, k.global, step') }, ground arith)
    ]

after-Counts :
    (n : ℕ) (xs : List ℕ) → 0 < n → n < 2 ^ 32 → IsHistory n xs → Counts n xs (after n xs)
unfolding after count
after-Counts n [] pos small h = record {
  local = λ c b. let w : ltb c n ≡ true = ground arith in rw w (omega arith);
  global = sym (incomplete_initial n n pos);
}
after-Counts n (x ∷ xs) pos small h =
    (notify-Counts n xs (after n xs) x small h
      (after-Counts n xs pos small (IsHistory-tail n x xs h))).0

-- Of the notifications of a phase, in any order, the one calls the notifier, and no other, that
-- leaves no channel with fewer notifications than there are cores.
pub notify_complete :
    (n : ℕ) (channel_id : ℕ) (earlier : List ℕ)
    → 0 < n
    → n < 2 ^ 32
    → IsHistory n (channel_id ∷ earlier)
    → (notify (after n earlier) channel_id).1 ≡ (incomplete n (channel_id ∷ earlier) n == 0)
notify_complete n channel_id earlier pos small h =
    (notify-Counts n earlier (after n earlier) channel_id small h
      (after-Counts n earlier pos small (IsHistory-tail n channel_id earlier h))).1
