-- ===== src/Util/MpscQueue/Frame.antt =====
-- What the calls of an `MpscQueue` leave as it is, and the insertion of a whole chain.
use mathlib.Core.Path.{subst}
use mxtasking.Prelude.{ℕ, ◌≡◌, ◌≢◌, refl, sym, List, [], ◌∷◌, arith}
use mxtasking.Util.Queue.{null, write}
use mxtasking.Util.Queue.Chain.{Chain, IsNodup, last, write_self, Chain-write}
use mxtasking.Util.Queue.Agreement.{Agrees, Chain-Agrees, Agrees-all, Chain-last, write_same}
use mxtasking.Util.MpscQueue.{MpscQueue, push_back, push_back_all, pop_item, pop_last, pop_front}
use mxtasking.Util.MpscQueue.Fifo.{
  Linked, behind_stub, bare, IsMpsc, pop_front-stub, pop_front-bare,
}

-- A store with the same fields for the items and the stub.
pub IsMpsc-Agrees :
    (q : MpscQueue) (xs : List ℕ) (next' : ℕ → ℕ)
    → Agrees q.next next' (q.end ∷ xs)
    → IsMpsc q xs
    → IsMpsc (record q { next = next' }) xs
IsMpsc-Agrees q xs next' a v = record { linked = kept v.linked; nodup = v.nodup; stub = v.stub }
  where
    kept : Linked q xs → Linked (record q { next = next' }) xs
    kept (behind_stub c e) = behind_stub (Chain-Agrees q.next next' q.tail (q.end ∷ xs) a c) e
    kept (bare x rest e c l) =
        bare x rest e
          (Chain-Agrees q.next next' q.tail (x ∷ rest) (subst (Agrees q.next next') e a.1) c) l

pop_item-frame :
    (q : MpscQueue) (t n b : ℕ) → q.end ≢ b → t ≢ b → (pop_item q t n).1.next b ≡ q.next b
unfolding pop_item pop_last push_back
pop_item-frame q t n b e h = ground arith

-- `pop_front` writes no field but those of the stub and of the item that it returns.
pub pop_front-frame :
    (q : MpscQueue) (x : ℕ) (xs : List ℕ) (b : ℕ)
    → IsMpsc q (x ∷ xs)
    → q.end ≢ b
    → x ≢ b
    → (pop_front q).1.next b ≡ q.next b
pop_front-frame q x xs b v e h = frame v.linked
  where
    frame : Linked q (x ∷ xs) → (pop_front q).1.next b ≡ q.next b
    frame (behind_stub c l) =
        rw (pop_front-stub q x xs c) (pop_item-frame (record q { tail = x }) x (q.next x) b e h)
    frame (bare y rest w c l) =
        rw (pop_front-bare q x xs (subst (Chain q.next q.tail) (sym w) c) v.nodup.0.0)
          (pop_item-frame q x (q.next x) b e h)

-- Inserting a chain into an empty queue.
pub push_back_all-IsMpsc :
    (q : MpscQueue) (begin y : ℕ) (ys : List ℕ)
    → IsMpsc q []
    → Chain q.next begin (y ∷ ys)
    → IsNodup (q.end ∷ y ∷ ys)
    → IsMpsc (push_back_all q begin (last y ys)) (y ∷ ys)
unfolding push_back_all
push_back_all-IsMpsc q begin y ys v c u = inserted v.linked
  where
    inserted : Linked q [] → IsMpsc (push_back_all q begin (last y ys)) (y ∷ ys)
    inserted (bare x rest e d l) = absurd (cc)
    inserted (behind_stub d e) =
        let cleared = write q.next (last y ys) null in
        let same : Chain cleared begin (y ∷ ys) =
          Chain-Agrees q.next cleared begin (y ∷ ys)
            (Agrees-all q.next cleared (y ∷ ys)
              (λ b. write_same q.next (last y ys) null b (Chain-last q.next begin y ys c)))
            c in
        let behind : Chain (write cleared q.head begin) (write cleared q.head begin q.end)
            (y ∷ ys) =
          subst (λ t. Chain (write cleared t begin) (write cleared t begin q.end) (y ∷ ys)) (sym e)
            (subst (λ a. Chain (write cleared q.end begin) a (y ∷ ys))
              (sym (write_self cleared q.end begin))
              (Chain-write cleared q.end begin begin (y ∷ ys) u.0 same)) in
        record { linked = behind_stub (d.0, v.stub, behind) refl; nodup = u; stub = v.stub }
