-- ===== src/Util/MpscQueue/Fifo.antt =====
-- A valid `MpscQueue` behaves as the list of its items, oldest first.
use mathlib.Core.Path.{subst, ap₂}
use mxtasking.Prelude.{ℕ, ◌≡◌, ◌≢◌, refl, sym, ap, ◌∙◌, List, [], ◌∷◌, ◌++◌, arith, true, false}
use mxtasking.Util.Queue.{null, write}
use mxtasking.Util.Queue.Chain.{
  Chain, NotIn, IsNodup, last, write_self, write_ne, last-append, IsNodup-append, Chain-write,
  Chain-append,
}
use mxtasking.Util.Queue.Fifo.{tail_of, Op, push, pop, run_list, Admissible}
use mxtasking.Util.MpscQueue.{MpscQueue, create, push_back, empty, pop_item, pop_front}

-- The linked items from the consumer's end on are the stub and then the items, or the items alone.
pub data Linked (q : MpscQueue) (xs : List ℕ) : Type 0 where
  behind_stub : Chain q.next q.tail (q.end ∷ xs) → q.head ≡ last q.end xs → Linked q xs
  bare :
      (x : ℕ) (rest : List ℕ)
      → xs ≡ x ∷ rest
      → Chain q.next q.tail (x ∷ rest)
      → q.head ≡ last x rest
      → Linked q xs

-- No item twice, and the stub is none of the items.
pub record IsMpsc (q : MpscQueue) (xs : List ℕ) : Type 0 where
  pub linked : Linked q xs
  pub nodup : IsNodup (q.end ∷ xs)
  pub stub : q.end ≢ null

pub create-IsMpsc : (stub : ℕ) (next : ℕ → ℕ) → stub ≢ null → IsMpsc (create stub next) []
unfolding create
create-IsMpsc stub next h = record {
  linked = behind_stub (refl, h, write_self next stub null) refl;
  nodup = (tt, tt);
  stub = h;
}

push-Chain :
    (q : MpscQueue) (x : ℕ) (rest : List ℕ) (a : ℕ)
    → Chain q.next q.tail (x ∷ rest)
    → q.head ≡ last x rest
    → IsNodup (x ∷ rest)
    → NotIn a (x ∷ rest)
    → a ≢ null
    → Chain (push_back q a).next q.tail (x ∷ rest ++ a ∷ [])
unfolding push_back
push-Chain q x rest a c e u n z =
    subst (λ t. Chain (write (write q.next a null) t a) q.tail (x ∷ rest ++ a ∷ [])) (sym e)
      (Chain-append (write q.next a null) q.tail x rest a
        (Chain-write q.next a null q.tail (x ∷ rest) n c) u n z (write_self q.next a null))

-- `push_back` appends.
pub push_back-IsMpsc :
    (q : MpscQueue) (xs : List ℕ) (a : ℕ)
    → IsMpsc q xs
    → a ≢ null
    → NotIn a (q.end ∷ xs)
    → IsMpsc (push_back q a) (xs ++ a ∷ [])
unfolding push_back
push_back-IsMpsc q xs a v z n = record {
  linked = push_linked v.linked;
  nodup = IsNodup-append (q.end ∷ xs) a v.nodup n;
  stub = v.stub;
}
  where
    push_linked : Linked q xs → Linked (push_back q a) (xs ++ a ∷ [])
    push_linked (behind_stub c e) =
        behind_stub (push-Chain q q.end xs a c e v.nodup n z) (sym (last-append q.end xs a))
    push_linked (bare x rest e c l) =
        bare x (rest ++ a ∷ []) (ap (λ (ys : List ℕ). ys ++ a ∷ []) e)
          (push-Chain q x rest a c l (subst IsNodup e v.nodup.1) (subst (NotIn a) e n.1) z)
          (sym (last-append x rest a))

pop_item-more : (q : MpscQueue) (x n : ℕ) → n ≢ null → pop_item q x n ≡ (x, record q { tail = n })
unfolding pop_item
pop_item-more q x n h = ground arith

-- Taking the last item puts the stub behind it first.
pop_item-single :
    (q : MpscQueue) (x : ℕ)
    → q.head ≡ x
    → q.end ≢ null
    → pop_item q x null ≡ (
      x,
      record {
        head = q.end;
        tail = q.end;
        end = q.end;
        next = write (write q.next q.end null) q.head q.end;
      },
    )
unfolding pop_item push_back
pop_item-single q x e z = ground (arith, write_self (write q.next q.end null) q.head q.end)

pop_item-IsMpsc :
    (q : MpscQueue) (x : ℕ) (rest : List ℕ)
    → Chain q.next q.tail (x ∷ rest)
    → q.head ≡ last x rest
    → IsNodup (q.end ∷ x ∷ rest)
    → q.end ≢ null
    → ((pop_item q x (q.next x)).0 ≡ x) × IsMpsc (pop_item q x (q.next x)).1 rest
pop_item-IsMpsc q x [] c e u z =
    rw (c.2, pop_item-single q x e z)
      (refl, record { linked = behind_stub (refl, z, cleared) refl; nodup = (tt, tt); stub = z })
  where
    cleared : write (write q.next q.end null) q.head q.end q.end ≡ null
    cleared =
        write_ne (write q.next q.end null) q.head q.end q.end (λ h. u.0.0 (sym h ∙ e))
        ∙ write_self q.next q.end null
pop_item-IsMpsc q x (y ∷ ys) c e u z =
    rw (pop_item-more q x (q.next x) (λ h. c.2.1 (sym c.2.0 ∙ h))) (
      refl,
      record { linked = bare y ys refl (c.2.0, c.2.1, c.2.2) e; nodup = (u.0.1, u.1.1); stub = z },
    )

-- What a `pop_front` of the items xs returns, and what it leaves.
abbrev pub Popped : ℕ × MpscQueue → List ℕ → Type 0
Popped (p, r) [] = (p ≡ null) × IsMpsc r []
Popped (p, r) (x ∷ xs) = (p ≡ x) × IsMpsc r xs

pub pop_front-stub :
    (q : MpscQueue) (x : ℕ) (rest : List ℕ)
    → Chain q.next q.tail (q.end ∷ x ∷ rest)
    → pop_front q ≡ pop_item (record q { tail = x }) x (q.next x)
unfolding pop_front
pop_front-stub q x rest c = ground arith

pub pop_front-bare :
    (q : MpscQueue) (x : ℕ) (rest : List ℕ)
    → Chain q.next q.tail (x ∷ rest)
    → q.end ≢ x
    → pop_front q ≡ pop_item q x (q.next x)
unfolding pop_front
pop_front-bare q x rest c h = ground arith

pop_front-none : (q : MpscQueue) → q.tail ≡ q.end → q.next q.end ≡ null → pop_front q ≡ (null, q)
unfolding pop_front
pop_front-none q t n = ground arith

-- `pop_front` returns null of an empty queue, and the oldest item of any other.
pub pop_front-IsMpsc : (q : MpscQueue) (xs : List ℕ) → IsMpsc q xs → Popped (pop_front q) xs
pop_front-IsMpsc q [] v = pop_none v.linked
  where
    pop_none : Linked q [] → Popped (pop_front q) []
    pop_none (behind_stub c e) = rw (pop_front-none q c.0 c.2) (refl, v)
    pop_none (bare x rest e c l) = absurd (cc)
pop_front-IsMpsc q (x ∷ xs) v = pop_some v.linked
  where
    pop_some : Linked q (x ∷ xs) → Popped (pop_front q) (x ∷ xs)
    pop_some (behind_stub c e) =
        rw (pop_front-stub q x xs c)
          (pop_item-IsMpsc (record q { tail = x }) x xs (refl, c.2.1, c.2.2) e v.nodup v.stub)
    pop_some (bare y rest e c l) =
        let c' : Chain q.next q.tail (x ∷ xs) = subst (Chain q.next q.tail) (sym e) c in
        rw (pop_front-bare q x xs c' v.nodup.0.0)
          (pop_item-IsMpsc q x xs c' (l ∙ sym (ap tail_of e)) v.nodup v.stub)

-- A queue without items is left with the same pointers: `pop_front` reads and writes nothing else.
pub pop_front-nil : (q : MpscQueue) → IsMpsc q [] → pop_front q ≡ (null, q)
pop_front-nil q v = none_linked v.linked
  where
    none_linked : Linked q [] → pop_front q ≡ (null, q)
    none_linked (behind_stub c e) = pop_front-none q c.0 c.2
    none_linked (bare x rest e c l) = absurd (cc)

nonnull : (q : MpscQueue) (x : ℕ) (xs : List ℕ) → Linked q (x ∷ xs) → x ≢ null
nonnull q x xs (behind_stub c e) = c.2.1
nonnull q x xs (bare y rest e c l) = (subst (Chain q.next q.tail) (sym e) c).1

pub pop_front-cons :
    (q : MpscQueue) (x : ℕ) (xs : List ℕ)
    → IsMpsc q (x ∷ xs)
    → ((pop_front q).0 ≡ x) × (x ≢ null) × IsMpsc (pop_front q).1 xs
pop_front-cons q x xs v =
    let (e, v') = pop_front-IsMpsc q (x ∷ xs) v in (e, nonnull q x xs v.linked, v')

pub empty_nil : (q : MpscQueue) → IsMpsc q [] → empty q ≡ true
unfolding empty
empty_nil q v = none_linked v.linked
  where
    none_linked : Linked q [] → empty q ≡ true
    none_linked (behind_stub c e) = ground (arith, c.0, c.2)
    none_linked (bare x rest e c l) = absurd (cc)

pub empty_cons : (q : MpscQueue) (x : ℕ) (xs : List ℕ) → IsMpsc q (x ∷ xs) → empty q ≡ false
unfolding empty
empty_cons q x xs v = some_linked v.linked
  where
    some_linked : Linked q (x ∷ xs) → empty q ≡ false
    some_linked (behind_stub c e) = ground (arith, c.2.0, c.2.1)
    some_linked (bare y rest e c l) =
        ground (arith, (subst (Chain q.next q.tail) (sym e) c).0, v.nodup.0.0)

-- The pointers that the calls of `pop_front` return, in order.
pub run : MpscQueue → List Op → List ℕ
run q [] = []
run q (push a ∷ ops) = run (push_back q a) ops
run q (pop ∷ ops) = (pop_front q).0 ∷ run (pop_front q).1 ops

-- No call pushes the item at the address `stub`.
abbrev pub Spares : ℕ → List Op → Type 0
Spares stub [] = Unit {0}
Spares stub (push a ∷ ops) = (a ≢ stub) × Spares stub ops
Spares stub (pop ∷ ops) = Spares stub ops

end-pop_item : (q : MpscQueue) (t n : ℕ) → (pop_item q t n).1.end ≡ q.end
unfolding pop_item push_back
end-pop_item q t n = ground arith

pub end-pop_front : (q : MpscQueue) → (pop_front q).1.end ≡ q.end
unfolding pop_front
end-pop_front q = ground (
  arith,
  end-pop_item q q.tail (q.next q.tail),
  end-pop_item (record q { tail = q.next q.tail }) (q.next q.tail) (q.next (q.next q.tail)),
)

end-push_back : (q : MpscQueue) (a : ℕ) → (push_back q a).end ≡ q.end
unfolding push_back
end-push_back q a = refl

-- Over every sequence of calls, each run to its end before the next, that pushes neither null, nor
-- the stub, nor an item that is in the queue at that time, a queue that holds the items xs returns
-- the pointers that a list of them returns: the oldest item for each pop, and null when there is
-- none.
pub mpsc_run_refines :
    (ops : List Op) (q : MpscQueue) (xs : List ℕ)
    → IsMpsc q xs
    → Admissible xs ops
    → Spares q.end ops
    → run q ops ≡ run_list xs ops
unfolding run run_list
mpsc_run_refines [] q xs v h s = refl
mpsc_run_refines (push a ∷ ops) q xs v h s =
    mpsc_run_refines ops (push_back q a) (xs ++ a ∷ []) (push_back-IsMpsc q xs a v h.0 (s.0, h.1))
      h.2 (subst (λ e. Spares e ops) (sym (end-push_back q a)) s.1)
mpsc_run_refines (pop ∷ ops) q [] v h s =
    let (e, v') = pop_front-IsMpsc q [] v in
    ap₂ ◌∷◌ e (
      mpsc_run_refines ops (pop_front q).1 [] v' h
        (subst (λ t. Spares t ops) (sym (end-pop_front q)) s))
mpsc_run_refines (pop ∷ ops) q (x ∷ xs) v h s =
    let (e, v') = pop_front-IsMpsc q (x ∷ xs) v in
    ap₂ ◌∷◌ e (
      mpsc_run_refines ops (pop_front q).1 xs v' h
        (subst (λ t. Spares t ops) (sym (end-pop_front q)) s))
