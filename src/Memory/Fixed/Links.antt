-- ===== src/Memory/Fixed/Links.antt =====
-- How the loop of `fill_buffer` in mx/memory/fixed_size_allocator.h links the objects of a chunk.
use mathlib.Core.Path.{subst}
use mxtasking.Prelude.{
  ℕ, zero, suc, ◌+◌, ◌*◌, ◌^◌, ◌<◌, ◌≡◌, refl, sym, ap, ◌∙◌, List, [], ◌∷◌, arith, add64,
}
use mxtasking.Util.Queue.{null, write}
use mxtasking.Util.Queue.Chain.{Chain, NotIn, IsNodup, write_self, write_ne}
use mxtasking.Memory.Fixed.{link}

-- `n` objects of a size, from the address `a` on.
unfoldable pub objects : ℕ → ℕ → ℕ → List ℕ
objects a object_size zero = []
objects a object_size (suc n) = a ∷ objects (a + object_size) object_size n

objects-NotIn : (b a object_size n : ℕ) → b < a → NotIn b (objects a object_size n)
unfolding objects
objects-NotIn b a object_size zero h = tt
objects-NotIn b a object_size (suc n) h =
    (omega arith, objects-NotIn b (a + object_size) object_size n (omega arith))

pub objects-IsNodup : (a object_size n : ℕ) → 0 < object_size → IsNodup (objects a object_size n)
unfolding objects
objects-IsNodup a object_size zero h = tt
objects-IsNodup a object_size (suc n) h = (
  objects-NotIn a (a + object_size) object_size n (omega arith),
  objects-IsNodup (a + object_size) object_size n h,
)

succ_times : (i size : ℕ) → (i + 1) * size ≡ i * size + size
succ_times i size = grind arith

suc_times : (i size : ℕ) → suc i * size ≡ i * size + size
suc_times i size = grind arith

-- One round of the loop: the next object, and what it leaves to show.
following :
    (chunk size left i current : ℕ)
    → current ≡ chunk + i * size
    → current + suc left * size < 2 ^ 64
    → (add64 chunk ((i + 1) * size) ≡ current + size)
      × (current + size ≡ chunk + (i + 1) * size)
      × (current + size + left * size < 2 ^ 64)
following chunk size left i current e b =
    let s = succ_times i size in
    let t = suc_times left size in (omega (arith, s, t), omega (arith, s), omega (arith, t))

-- The loop writes only from its current object on.
link_below :
    (chunk size left i current : ℕ) (next : ℕ → ℕ) (q : ℕ)
    → current ≡ chunk + i * size
    → current + left * size < 2 ^ 64
    → 0 < size
    → q < current
    → link chunk size left i current next q ≡ next q
unfolding link
link_below chunk size zero i current next q e b pos h = refl
link_below chunk size (suc left) i current next q e b pos h =
    let (f, e', b') = following chunk size left i current e b in
    let rest =
      link_below chunk size left (i + 1) (current + size) (write next current (current + size)) q e'
        b' pos (omega arith) in
    rw (f, link) (rest ∙ write_ne next current (current + size) q (omega arith))

-- With the end written behind the loop, the objects are a chain.
pub link-Chain :
    (chunk size left i current : ℕ) (next : ℕ → ℕ)
    → current ≡ chunk + i * size
    → current + left * size < 2 ^ 64
    → 0 < size
    → 0 < current
    → Chain
        (write (link chunk size left i current next) (current + left * size) null)
        current
        (objects current size (suc left))
unfolding link objects
link-Chain chunk size zero i current next e b pos nonnull =
    let last : current + 0 * size ≡ current = grind arith in
    rw last (refl, omega arith, write_self next current null)
link-Chain chunk size (suc left) i current next e b pos nonnull =
    let (f, e', b') = following chunk size left i current e b in
    let linked = write next current (current + size) in
    let final : ℕ → ℕ = link chunk size left (i + 1) (current + size) linked in
    let last : current + suc left * size ≡ current + size + left * size =
      omega (arith, suc_times left size) in
    let here : write final (current + size + left * size) null current ≡ current + size =
      write_ne final (current + size + left * size) null current (omega arith)
      ∙ link_below chunk size left (i + 1) (current + size) linked current e' b' pos (omega arith)
      ∙ write_self next current (current + size) in
    let rest = link-Chain chunk size left (i + 1) (current + size) linked e' b' pos (omega arith) in
    let whole : write (link chunk size (suc left) i current next) (current + suc left * size) null
        ≡ write final (current + size + left * size) null =
      ap (λ (a : ℕ). write (link chunk size (suc left) i current next) a null) last
      ∙ ap
          (λ (a : ℕ).
            write (link chunk size left (i + 1) a (write next current a))
              (current + size + left * size) null)
          f in
    subst (λ g. Chain g current (objects current size (suc (suc left)))) (sym whole)
      (
        refl,
        omega arith,
        subst
            (λ a.
              Chain (write final (current + size + left * size) null) a
                (objects (current + size) size (suc left)))
            (sym here) rest,
      )
