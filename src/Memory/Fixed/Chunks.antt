-- ===== src/Memory/Fixed/Chunks.antt =====
-- The chunks that a processor heap of mx/memory/fixed_size_allocator.h hands out.
use mathlib.Core.Path.{subst}
use mxtasking.Prelude.{
  ℕ, zero, suc, ◌+◌, ◌*◌, ◌/◌, ◌%◌, ◌^◌, ◌≤◌, ◌<◌, ◌≡◌, ◌≢◌, refl, sym, ap, ◌∙◌, true, false, ltb,
  Bool-cases, ◌⊎◌, inl, inr, List, [], ◌∷◌, some, arith, length, ℕ_discrete,
}
use mxtasking.Memory.Fixed.{
  Chunk, chunk_size, chunks, cut, ProcessorHeap, create, fill_buffer, allocate_chunk, draw,
}

-- The address of the k-th chunk, when the first call of the global heap was the `base`-th.
unfoldable pub chunk_of : (ℕ → ℕ) → ℕ → ℕ → ℕ
chunk_of global base k = (cut (global (base + k / 128)) (k % 128)).memory

-- The heap after `k` chunks.
pub record HasServed (global : ℕ → ℕ) (base k : ℕ) (p : ProcessorHeap) : Type 0 where
  pub flag : p.fill_buffer_flag ≡ false
  pub round : ℕ
  pub calls : p.calls ≡ base + round + 1
  pub count : k ≡ 128 * round + p.next_free_chunk
  pub bound : p.next_free_chunk ≤ 128
  pub buffer : (i : ℕ) → i < 128 → p.free_chunk_buffer i ≡ cut (global (base + round)) i

pub create-HasServed : (global : ℕ → ℕ) (base : ℕ) → HasServed global base 0 (create global base)
unfolding create fill_buffer
create-HasServed global base = record {
  flag = refl;
  round = 0;
  calls = omega arith;
  count = omega arith;
  bound = omega arith;
  buffer = λ i h.
      let w : ltb i 128 ≡ true = ground arith in
      rw w (ap (λ (n : ℕ). cut (global n) i) (let e : base ≡ base + 0 = omega arith in e));
}

chunk_of-round :
    (global : ℕ → ℕ) (base k round i : ℕ)
    → k ≡ 128 * round + i
    → i < 128
    → chunk_of global base k ≡ (cut (global (base + round)) i).memory
unfolding chunk_of
chunk_of-round global base k round i e h =
    let q : k / 128 ≡ round = omega arith in let r : k % 128 ≡ i = omega arith in rw (q, r) refl

-- A call ends, behind a refill at most.
pub allocate_chunk-HasServed :
    (global : ℕ → ℕ) (base k : ℕ) (p : ProcessorHeap)
    → HasServed global base k p
    → (chunk : Chunk) × (p' : ProcessorHeap) × (allocate_chunk 2 global p ≡ some (chunk, p'))
      × (chunk.memory ≡ chunk_of global base k)
      × HasServed global base (k + 1) p'
unfolding allocate_chunk fill_buffer
allocate_chunk-HasServed global base k p h = elim (Bool-cases (ltb p.next_free_chunk chunks)) [
  | inl e ↦
      let lt : p.next_free_chunk < 128 = ground arith in
      (
        p.free_chunk_buffer p.next_free_chunk,
        record p { next_free_chunk = (p.next_free_chunk + 1) % 2 ^ 8 },
        rw e refl,
        ap (λ (c : Chunk). c.memory) (h.buffer p.next_free_chunk lt)
            ∙ sym (chunk_of-round global base k h.round p.next_free_chunk h.count lt),
        record {
          flag = h.flag;
          round = h.round;
          calls = h.calls;
          count = omega (arith, h.count);
          bound = omega arith;
          buffer = h.buffer;
        },
      )
  | inr e ↦
      let last : p.next_free_chunk ≡ 128 = ground (arith, h.bound) in
      let at : p.calls ≡ base + (h.round + 1) = omega (arith, h.calls) in
      let taken = record p {
        next_free_chunk = (p.next_free_chunk + 1) % 2 ^ 8;
        fill_buffer_flag = true;
      } in
      (
        cut (global p.calls) 0,
        record (fill_buffer false global taken) { fill_buffer_flag = false; next_free_chunk = 1 },
        rw (e, h.flag) refl,
        ap (λ (n : ℕ). (cut (global n) 0).memory) at
            ∙ sym (
                chunk_of-round global base k (h.round + 1) 0 (omega (arith, h.count))
                  (omega arith)),
        record {
          flag = refl;
          round = h.round + 1;
          calls = omega (arith, h.calls);
          count = omega (arith, h.count);
          bound = omega arith;
          buffer = λ i lt.
              let w : ltb i 128 ≡ true = ground arith in rw w (ap (λ (n : ℕ). cut (global n) i) at);
        },
      )
]

-- The regions that the global heap returns from the `base`-th call on, `rounds` of them: none is
-- null, none wraps around, and no two overlap.
pub record IsHeap (global : ℕ → ℕ) (base rounds : ℕ) : Type 0 where
  pub pos : (i : ℕ) → i < rounds → 0 < global (base + i)
  pub bounded : (i : ℕ) → i < rounds → global (base + i) + chunks * chunk_size < 2 ^ 64
  pub apart :
      (i j : ℕ)
      → i < rounds
      → j < rounds
      → i ≢ j
      → (global (base + i) + chunks * chunk_size ≤ global (base + j))
        ⊎ (global (base + j) + chunks * chunk_size ≤ global (base + i))

abbrev pub Apart : ℕ → ℕ → Type 0
Apart a b = (a + chunk_size ≤ b) ⊎ (b + chunk_size ≤ a)

module _ (global : ℕ → ℕ) (base rounds : ℕ) (h : IsHeap global base rounds) where
  chunk_of-bounds :
      (k : ℕ)
      → k < 128 * rounds
      → chunk_of global base k ≡ global (base + k / 128) + k % 128 * chunk_size
  unfolding chunk_of
  chunk_of-bounds k lt = omega (arith, h.bounded (k / 128) (omega arith))

  pub chunk_of_pos : (k : ℕ) → k < 128 * rounds → 0 < chunk_of global base k
  chunk_of_pos k lt = omega (arith, chunk_of-bounds k lt, h.pos (k / 128) (omega arith))

  pub chunk_of-lt : (k : ℕ) → k < 128 * rounds → chunk_of global base k + chunk_size < 2 ^ 64
  chunk_of-lt k lt = omega (arith, chunk_of-bounds k lt, h.bounded (k / 128) (omega arith))

  chunk_of-Apart :
      (j k : ℕ) → j < k → k < 128 * rounds → Apart (chunk_of global base j) (chunk_of global base k)
  chunk_of-Apart j k lt few =
      let a = chunk_of-bounds j (omega arith) in
      let b = chunk_of-bounds k few in
      elim (ℕ_discrete (j / 128) (k / 128)) [
        | yes e ↦
            let same : global (base + j / 128) ≡ global (base + k / 128) =
              ap (λ (r : ℕ). global (base + r)) e in
            inl (omega (arith, a, b, same))
        | no n ↦ elim (h.apart (j / 128) (k / 128) (omega arith) (omega arith) n) [
          | inl l ↦ inl (omega (arith, a, b))
          | inr r ↦ inr (omega (arith, a, b))
        ]
      ]

-- Every address in a list is apart from the address, and from those behind it.
abbrev pub AllApart : ℕ → List ℕ → Type 0
AllApart a [] = Unit {0}
AllApart a (b ∷ bs) = Apart a b × AllApart a bs

abbrev pub IsApart : List ℕ → Type 0
IsApart [] = Unit {0}
IsApart (a ∷ bs) = AllApart a bs × IsApart bs

abbrev Drawn : (ℕ → ℕ) → ℕ → ℕ → List ℕ → Type 0
Drawn global base k [] = Unit {0}
Drawn global base k (a ∷ bs) = (a ≡ chunk_of global base k) × Drawn global base (k + 1) bs

Drawn-AllApart :
    (global : ℕ → ℕ) (base rounds j k : ℕ) (addresses : List ℕ)
    → IsHeap global base rounds
    → j < k
    → k + length addresses ≤ 128 * rounds
    → Drawn global base k addresses
    → AllApart (chunk_of global base j) addresses
Drawn-AllApart global base rounds j k [] h lt few d = tt
Drawn-AllApart global base rounds j k (a ∷ bs) h lt few d = (
  subst (λ b. Apart (chunk_of global base j) b) (sym d.0)
      (chunk_of-Apart global base rounds h j k lt (omega arith)),
  Drawn-AllApart global base rounds j (k + 1) bs h (omega arith) (omega arith) d.1,
)

Drawn-IsApart :
    (global : ℕ → ℕ) (base rounds k : ℕ) (addresses : List ℕ)
    → IsHeap global base rounds
    → k + length addresses ≤ 128 * rounds
    → Drawn global base k addresses
    → IsApart addresses
Drawn-IsApart global base rounds k [] h few d = tt
Drawn-IsApart global base rounds k (a ∷ bs) h few d = (
  subst (λ b. AllApart b bs) (sym d.0)
      (Drawn-AllApart global base rounds k (k + 1) bs h (omega arith) (omega arith) d.1),
  Drawn-IsApart global base rounds (k + 1) bs h (omega arith) d.1,
)

draw-Drawn :
    (global : ℕ → ℕ) (base n k : ℕ) (p : ProcessorHeap)
    → HasServed global base k p
    → (addresses : List ℕ) × (p' : ProcessorHeap) × (draw n global p ≡ some (addresses, p'))
      × (length addresses ≡ n)
      × Drawn global base k addresses
unfolding draw
draw-Drawn global base zero k p h = ([], p, refl, refl, tt)
draw-Drawn global base (suc n) k p h =
    let (chunk, p', e, at, h') = allocate_chunk-HasServed global base k p h in
    let (addresses, p'', e', size, d) = draw-Drawn global base n (k + 1) p' h' in
    (chunk.memory ∷ addresses, p'', rw (e, e', draw) refl, ap suc size, (at, d))

-- A new processor heap serves 128 chunks for each region that the global heap returns: if no two of
-- the regions overlap, none is null and none wraps around, then that many calls, or fewer, end, with
-- as many chunks, of which no two overlap.
pub draw-IsApart :
    (global : ℕ → ℕ) (base rounds n : ℕ)
    → IsHeap global base rounds
    → n ≤ 128 * rounds
    → (addresses : List ℕ) × (p : ProcessorHeap) × (draw n global (create global base)
        ≡ some (addresses, p))
      × (length addresses ≡ n)
      × IsApart addresses
draw-IsApart global base rounds n h few =
    let (addresses, p, e, size, d) =
      draw-Drawn global base n 0 (create global base) (create-HasServed global base) in
    (addresses, p, e, size, Drawn-IsApart global base rounds 0 addresses h (omega (arith, size)) d)
