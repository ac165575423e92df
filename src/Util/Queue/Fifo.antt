-- ===== src/Util/Queue/Fifo.antt =====
-- A valid `Queue` behaves as the list of its items, oldest first.
use mxtasking.Prelude.{
  ℕ, ◌≡◌, ◌≢◌, refl, sym, ap, ◌∙◌, List, [], ◌∷◌, ◌++◌, arith, ◌==◌, if◌then◌else◌, true, false,
  Bool-cases, ==_iff, inl, inr,
}
use mathlib.Core.Path.{subst}
use mxtasking.Util.Queue.{null, write, Queue, push_back, pop_front, empty}
use mxtasking.Util.Queue.Chain.{
  Chain, NotIn, IsNodup, last, write_self, write_ne, NotIn-last, last-append, IsNodup-append,
  Chain-write, Chain-append,
}

-- The tail pointer is the last item of the chain, or null.
abbrev pub tail_of : List ℕ → ℕ
tail_of [] = null
tail_of (x ∷ xs) = last x xs

pub record IsQueue (q : Queue) (xs : List ℕ) : Type 0 where
  pub chain : Chain q.next q.head xs
  pub ends : q.tail ≡ tail_of xs
  pub nodup : IsNodup xs

last-ne-null : (next : ℕ → ℕ) (p x : ℕ) (xs : List ℕ) → Chain next p (x ∷ xs) → last x xs ≢ null
last-ne-null next p x [] c = c.1
last-ne-null next p x (y ∷ ys) c = last-ne-null next (next x) y ys c.2

push_back-nonempty :
    (q : Queue) (a : ℕ)
    → q.tail ≢ null
    → push_back q a
      ≡ record { head = q.head; tail = a; next = write (write q.next a null) q.tail a }
unfolding push_back
push_back-nonempty q a h = ground arith

push_back-empty :
    (q : Queue) (a : ℕ)
    → q.tail ≡ null
    → push_back q a ≡ record { head = a; tail = a; next = write q.next a null }
unfolding push_back
push_back-empty q a h = ground arith

-- `push_back` appends.
pub push_back-IsQueue :
    (q : Queue) (xs : List ℕ) (a : ℕ)
    → IsQueue q xs
    → a ≢ null
    → NotIn a xs
    → IsQueue (push_back q a) (xs ++ a ∷ [])
push_back-IsQueue q [] a v z n =
    rw (push_back-empty q a v.ends)
      (record { chain = (refl, z, write_self q.next a null); ends = refl; nodup = (tt, tt) })
push_back-IsQueue q (x ∷ xs) a v z n =
    rw (push_back-nonempty q a (λ e. last-ne-null q.next q.head x xs v.chain (sym v.ends ∙ e)))
      (record {
        chain =
            subst (λ t. Chain (write (write q.next a null) t a) q.head (x ∷ xs ++ a ∷ []))
              (sym v.ends)
              (Chain-append (write q.next a null) q.head x xs a
                (Chain-write q.next a null q.head (x ∷ xs) n v.chain) v.nodup n z
                (write_self q.next a null));
        ends = sym (last-append x xs a);
        nodup = IsNodup-append (x ∷ xs) a v.nodup n;
      })

-- `push_back` writes no field but those of the new item and of the last item.
pub push_back-frame :
    (q : Queue) (xs : List ℕ) (a b : ℕ)
    → IsQueue q xs
    → NotIn b (a ∷ xs)
    → (push_back q a).next b ≡ q.next b
push_back-frame q [] a b v n =
    rw (push_back-empty q a v.ends) (write_ne q.next a null b (λ e. n.0 (sym e)))
push_back-frame q (x ∷ xs) a b v n =
    rw (push_back-nonempty q a (λ e. last-ne-null q.next q.head x xs v.chain (sym v.ends ∙ e))) (
      write_ne (write q.next a null) q.tail a b (λ e. NotIn-last b x xs n.1 (sym e ∙ v.ends))
      ∙ write_ne q.next a null b (λ e. n.0 (sym e)))

-- `pop_front` of an empty queue returns null and changes nothing.
pub pop_front-empty : (q : Queue) → IsQueue q [] → pop_front q ≡ (null, q)
unfolding pop_front
pop_front-empty q v = rw (v.chain)

tail_of-cons :
    (x : ℕ) (xs : List ℕ) (next : ℕ → ℕ)
    → Chain next (next x) xs
    → (if next x == null then null else last x xs) ≡ tail_of xs
tail_of-cons x [] next c = rw c
tail_of-cons x (y ∷ ys) next c = elim (Bool-cases (next x == null)) [
  | inl e ↦ absurd (c.1 (sym c.0 ∙ (==_iff _ _).0 e))
  | inr e ↦ rw e
]

-- `pop_front` takes the oldest item.
pub pop_front-IsQueue :
    (q : Queue) (x : ℕ) (xs : List ℕ)
    → IsQueue q (x ∷ xs)
    → ((pop_front q).0 ≡ x) × IsQueue (pop_front q).1 xs
unfolding pop_front
pop_front-IsQueue q x xs v = elim (Bool-cases (q.head == null)) [
  | inl e ↦ absurd (v.chain.1 (sym v.chain.0 ∙ (==_iff _ _).0 e))
  | inr e ↦ rw e (
    v.chain.0,
    record {
      chain = rw (v.chain.0) v.chain.2;
      ends = rw (v.chain.0, v.ends) (tail_of-cons x xs q.next v.chain.2);
      nodup = v.nodup.1;
    },
  )
]

pub empty_nil : (q : Queue) → IsQueue q [] → empty q ≡ true
unfolding empty
empty_nil q v = rw (v.chain)

pub empty_cons : (q : Queue) (x : ℕ) (xs : List ℕ) → IsQueue q (x ∷ xs) → empty q ≡ false
unfolding empty
empty_cons q x xs v = ground (arith, v.chain.0, v.chain.1)

-- What a client asks of a queue.
pub data Op : Type 0 where
  push : ℕ → Op
  pop : Op

-- The pointers that the calls of `pop_front` return, in order.
pub run : Queue → List Op → List ℕ
run q [] = []
run q (push a ∷ ops) = run (push_back q a) ops
run q (pop ∷ ops) = (pop_front q).0 ∷ run (pop_front q).1 ops

-- The same calls on a list.
unfoldable pub run_list : List ℕ → List Op → List ℕ
run_list xs [] = []
run_list xs (push a ∷ ops) = run_list (xs ++ a ∷ []) ops
run_list [] (pop ∷ ops) = null ∷ run_list [] ops
run_list (x ∷ xs) (pop ∷ ops) = x ∷ run_list xs ops

-- An item is pushed only while it is in no place of the queue.
abbrev pub Admissible : List ℕ → List Op → Type 0
Admissible xs [] = Unit {0}
Admissible xs (push a ∷ ops) = (a ≢ null) × NotIn a xs × Admissible (xs ++ a ∷ []) ops
Admissible [] (pop ∷ ops) = Admissible [] ops
Admissible (x ∷ xs) (pop ∷ ops) = Admissible xs ops

-- Over every sequence of calls that pushes no null pointer and no item that is in the queue at
-- that time, a queue that holds the items xs returns the pointers that a list of them returns: the
-- oldest item for each pop, and null when there is none.
pub run_refines :
    (ops : List Op) (q : Queue) (xs : List ℕ)
    → IsQueue q xs
    → Admissible xs ops
    → run q ops ≡ run_list xs ops
unfolding run run_list
run_refines [] q xs v h = refl
run_refines (push a ∷ ops) q xs v h =
    run_refines ops (push_back q a) (xs ++ a ∷ []) (push_back-IsQueue q xs a v h.0 h.1) h.2
run_refines (pop ∷ ops) q [] v h =
    rw (pop_front-empty q v) (ap (λ r. null ∷ r) (run_refines ops q [] v h))
run_refines (pop ∷ ops) q (x ∷ xs) v h =
    let (e, v') = pop_front-IsQueue q x xs v in
    rw (e) (ap (λ r. x ∷ r) (run_refines ops (pop_front q).1 xs v' h))
