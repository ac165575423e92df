-- ===== src/Memory/Fixed/Objects.antt =====
-- The free objects of a core heap of mx/memory/fixed_size_allocator.h, as a list.
use mathlib.Core.Path.{subst}
use native.Mathlib.Nat.{div-add-mod, mod-lt}
use mxtasking.Prelude.{
  ℕ, suc, ◌+◌, ◌-◌, ◌*◌, ◌/◌, ◌≤◌, ◌<◌, ◌≡◌, ◌≢◌, refl, sym, ap, ◌∙◌, true, false, ◌==◌, List, [],
  ◌∷◌, some, arith, ℕ_discrete, add64,
}
use mxtasking.Util.Queue.{null, write}
use mxtasking.Util.Queue.Chain.{Chain, NotIn, IsNodup, Chain-write, write_self}
use mxtasking.Memory.Fixed.{chunk_size, CoreHeap, link, fill_core, take_first, allocate, free}
use mxtasking.Memory.Fixed.Chunks.{
  HasServed, IsHeap, chunk_of, chunk_of_pos, chunk_of-lt, allocate_chunk-HasServed,
}
use mxtasking.Memory.Fixed.Links.{objects, objects-IsNodup, link-Chain}

-- The free objects of a core heap, after `k` chunks of its processor heap.
pub record HasFree (global : ℕ → ℕ) (base k : ℕ) (c : CoreHeap) (xs : List ℕ) : Type 0 where
  pub served : HasServed global base k c.processor_heap
  pub chain : Chain c.next c.first xs
  pub nodup : IsNodup xs

abbrev pub chunk_objects : (ℕ → ℕ) → ℕ → ℕ → ℕ → List ℕ
chunk_objects global base object_size k =
    objects (chunk_of global base k) object_size (chunk_size / object_size)

count_pos : (size : ℕ) → 0 < size → size ≤ chunk_size → 0 < chunk_size / size
count_pos size pos small = elim (ℕ_discrete (chunk_size / size) 0) [
  | yes z ↦
      let none_fits : size * (chunk_size / size) ≡ 0 = ap (λ (d : ℕ). size * d) z ∙ omega arith in
      absurd (omega (arith, div-add-mod chunk_size size, mod-lt chunk_size pos, none_fits))
  | no n ↦ omega arith
]

count_fits : (size n : ℕ) → chunk_size / size ≡ suc n → n * size + size ≤ chunk_size
count_fits size n e =
    let times : size * (chunk_size / size) ≡ n * size + size =
      ap (λ (d : ℕ). size * d) e ∙ (grind arith) in
    omega (arith, div-add-mod chunk_size size, times)

pub fill_core-HasFree :
    (object_size : ℕ) (global : ℕ → ℕ) (base rounds k : ℕ) (c : CoreHeap) (xs : List ℕ)
    → IsHeap global base rounds
    → k < 128 * rounds
    → 0 < object_size
    → object_size ≤ chunk_size
    → HasFree global base k c xs
    → (c' : CoreHeap) × (fill_core object_size global c ≡ some c')
      × HasFree global base (k + 1) c' (chunk_objects global base object_size k)
unfolding fill_core
fill_core-HasFree object_size global base rounds k c xs h few pos small free =
    let (chunk, p', e, at, served) =
      allocate_chunk-HasServed global base k c.processor_heap free.served in
    let n = chunk_size / object_size - 1 in
    let count : chunk_size / object_size ≡ suc n = omega (arith, count_pos object_size pos small) in
    let fits : n * object_size + object_size ≤ chunk_size = count_fits object_size n count in
    let room = chunk_of-lt global base rounds h k few in
    let last : add64 chunk.memory (n * object_size) ≡ chunk.memory + n * object_size =
      omega (arith, at, fits, room) in
    let c' : CoreHeap = record {
      processor_heap = p';
      first = chunk.memory;
      next =
          write (link chunk.memory object_size n 0 chunk.memory c.next)
            (add64 chunk.memory (n * object_size)) null;
    } in
    let same : objects chunk.memory object_size (suc n) ≡ chunk_objects global base object_size k =
      ap (λ (a : ℕ). objects a object_size (suc n)) at
      ∙ ap (λ (m : ℕ). objects (chunk_of global base k) object_size m) (sym count) in
    let linked =
      link-Chain chunk.memory object_size n 0 chunk.memory c.next (grind arith)
        (omega (arith, at, fits, room)) pos
        (omega (arith, at, chunk_of_pos global base rounds h k few)) in
    (
      c',
      rw (e, fill_core) refl,
      record {
        served = served;
        chain =
            subst
              (λ a.
                Chain (write (link chunk.memory object_size n 0 chunk.memory c.next) a null)
                  chunk.memory (chunk_objects global base object_size k))
              (sym last)
              (subst
                (λ ys.
                  Chain
                    (write (link chunk.memory object_size n 0 chunk.memory c.next)
                      (chunk.memory + n * object_size) null)
                    chunk.memory ys)
                same linked);
        nodup = objects-IsNodup (chunk_of global base k) object_size (chunk_size / object_size) pos;
      },
    )

take_first-HasFree :
    (global : ℕ → ℕ) (base k : ℕ) (c : CoreHeap) (x : ℕ) (xs : List ℕ)
    → HasFree global base k c (x ∷ xs)
    → ((take_first c).0 ≡ x) × HasFree global base k (take_first c).1 xs
take_first-HasFree global base k c x xs h = (
  h.chain.0,
  record {
    served = h.served;
    chain = subst (λ a. Chain c.next (c.next a) xs) (sym h.chain.0) h.chain.2;
    nodup = h.nodup.1;
  },
)

-- `allocate` takes the first free object, and that of a new chunk when there is none.
pub allocate-cons :
    (object_size : ℕ) (global : ℕ → ℕ) (base k : ℕ) (c : CoreHeap) (x : ℕ) (xs : List ℕ)
    → HasFree global base k c (x ∷ xs)
    → (c' : CoreHeap) × (allocate object_size global c ≡ some (x, c')) × HasFree global base k c' xs
unfolding allocate
allocate-cons object_size global base k c x xs h =
    let full : (c.first == null) ≡ false = ground (arith, h.chain.0, h.chain.1) in
    let (e, h') = take_first-HasFree global base k c x xs h in
    ((take_first c).1, rw full (ap (λ (a : ℕ). some (a, (take_first c).1)) e), h')

pub allocate-nil :
    (object_size : ℕ) (global : ℕ → ℕ) (base rounds k : ℕ) (c : CoreHeap) (x : ℕ) (xs : List ℕ)
    → IsHeap global base rounds
    → k < 128 * rounds
    → 0 < object_size
    → object_size ≤ chunk_size
    → HasFree global base k c []
    → chunk_objects global base object_size k ≡ x ∷ xs
    → (c' : CoreHeap) × (allocate object_size global c ≡ some (x, c'))
      × HasFree global base (k + 1) c' xs
unfolding allocate
allocate-nil object_size global base rounds k c x xs h few pos small free e =
    let (c1, e1, h1) =
      fill_core-HasFree object_size global base rounds k c [] h few pos small free in
    let (at, h2) =
      take_first-HasFree global base (k + 1) c1 x xs
        (subst (λ ys. HasFree global base (k + 1) c1 ys) e h1) in
    let none_left : (c.first == null) ≡ true = ground (arith, free.chain) in
    ((take_first c1).1, rw (none_left, e1) (ap (λ (a : ℕ). some (a, (take_first c1).1)) at), h2)

pub free-HasFree :
    (global : ℕ → ℕ) (base k : ℕ) (c : CoreHeap) (p : ℕ) (xs : List ℕ)
    → p ≢ null
    → NotIn p xs
    → HasFree global base k c xs
    → HasFree global base k (free c p) (p ∷ xs)
unfolding free
free-HasFree global base k c p xs nonnull new h = record {
  served = h.served;
  chain = (
    refl,
    nonnull,
    subst (λ a. Chain (write c.next p c.first) a xs) (sym (write_self c.next p c.first))
        (Chain-write c.next p c.first c.first xs new h.chain),
  );
  nodup = (new, h.nodup);
}

pub chunk_objects-cons :
    (global : ℕ → ℕ) (base object_size k : ℕ)
    → 0 < object_size
    → object_size ≤ chunk_size
    → (x : ℕ) × (xs : List ℕ) × (chunk_objects global base object_size k ≡ x ∷ xs)
unfolding objects
chunk_objects-cons global base object_size k pos small =
    let count : chunk_size / object_size ≡ suc (chunk_size / object_size - 1) =
      omega (arith, count_pos object_size pos small) in
    let a = chunk_of global base k in
    (
      a,
      objects (a + object_size) object_size (chunk_size / object_size - 1),
      ap (λ (n : ℕ). objects a object_size n) count,
    )
