-- ===== src/Tasking/TaskBuffer/Fill.antt =====
-- Filling the ring of mx/tasking/task_buffer.h from a queue, and what a queue has to promise.
use mathlib.Core.Path.{subst}
use mxtasking.Prelude.{
  ℕ, zero, suc, ◌+◌, ◌≤◌, ◌<◌, ◌≡◌, ◌≢◌, sym, ◌∙◌, List, [], ◌∷◌, ◌++◌, arith, ◌==◌, true, false,
  Bool-cases, ==_iff, inl, inr, length, length-append, take, drop, append-nil, append_assoc, min,
  ltb, leb, ◌&&◌,
}
use mxtasking.Tasking.Task.{TaskInterface}
use mxtasking.Tasking.TaskBuffer.{TaskBuffer, TaskSource, put, fill_loop, fill, size}
use mxtasking.Tasking.TaskBuffer.Slots.{IsBuffer, put-IsBuffer}

-- The laws of a first-in first-out queue, for the queues whose valid states hold the listed tasks.
pub record SourceLaws (source : TaskSource) : Type 1 where
  pub Holds : source.Q → List ℕ → Type 0
  pub pop_nil : (q : source.Q) → Holds q [] → source.pop_front q ≡ (0, q)
  pub pop_cons :
      (q : source.Q) (x : ℕ) (xs : List ℕ)
      → Holds q (x ∷ xs)
      → ((source.pop_front q).0 ≡ x) × (x ≢ 0) × Holds (source.pop_front q).1 xs
  pub empty_nil : (q : source.Q) → Holds q [] → source.is_empty q ≡ true
  pub empty_cons :
      (q : source.Q) (x : ℕ) (xs : List ℕ) → Holds q (x ∷ xs) → source.is_empty q ≡ false

-- `size` counts the tasks of a buffer that is not full.
pub size-IsBuffer :
    (b : TaskBuffer) (xs : List ℕ) → IsBuffer b xs → length xs < 64 → size b ≡ length xs
unfolding size
size-IsBuffer b xs v h = ground (arith, v.tail_at, v.head_in)

suc-eq-zero : (n : ℕ) → (suc n == 0) ≡ false
suc-eq-zero n = ground arith

module _ (source : TaskSource) (laws : SourceLaws source) (tasks : ℕ → TaskInterface) where
  open source use {Q, is_empty, pop_front}
  open laws use {Holds, pop_nil, pop_cons, empty_nil, empty_cons}

  -- What filling with at most `count` tasks from a queue of ys has done.
  pub record Filled (xs ys : List ℕ) (i count : ℕ) (out : ℕ × TaskBuffer × Q) : Type 0 where
    pub taken : out.0 ≡ i + min count (length ys)
    pub buffer : IsBuffer out.1 (xs ++ take count ys)
    pub queue : Holds out.2 (drop count ys)

  fill_loop-Filled :
      (left i n t : ℕ) (b : TaskBuffer) (q : Q) (xs ys : List ℕ)
      → IsBuffer b xs
      → Holds q ys
      → length xs + left ≤ 64
      → Filled xs ys i left (fill_loop source tasks left i n t b q)
  unfolding fill_loop
  fill_loop-Filled zero i n t b q xs ys v h r = record {
    taken = omega arith;
    buffer = rw append-nil v;
    queue = h;
  }
  fill_loop-Filled (suc left) i n t b q xs [] v h r =
      rw (pop_nil q h) (record { taken = omega arith; buffer = rw append-nil v; queue = h })
  fill_loop-Filled (suc left) i n t b q xs (y ∷ ys) v h r =
      elim (Bool-cases ((pop_front q).0 == 0)) [
        | inl e ↦ absurd ((pop_cons q y ys h).1 (sym (pop_cons q y ys h).0 ∙ (==_iff _ _).0 e))
        | inr e ↦ rw e (
            shift (
              fill_loop-Filled left (i + 1) n _ _ _ (xs ++ y ∷ []) ys put_y (pop_cons q y ys h).2
                (omega (arith, length-append xs (y ∷ [])))))
      ]
    where
      put_y :
          IsBuffer
            (put tasks b
              (ltb 0 b.prefetch_distance && leb b.prefetch_distance (n + i))
              t
              (pop_front q).0)
            (xs ++ y ∷ [])
      put_y =
          rw ((pop_cons q y ys h).0)
            (put-IsBuffer tasks b _ t y xs v (omega arith) (pop_cons q y ys h).1)

      shift :
          {out : ℕ × TaskBuffer × Q}
          → Filled (xs ++ y ∷ []) ys (i + 1) left out
          → Filled xs (y ∷ ys) i (suc left) out
      shift {out} f = record {
        taken = omega (arith, f.taken);
        buffer = subst (IsBuffer out.1) (append_assoc xs (y ∷ []) (take left ys)) f.buffer;
        queue = f.queue;
      }

  -- Filling a buffer of the tasks xs, with room for `count` more, from a queue of the tasks ys
  -- takes the first `count` of ys, or all of them if there are fewer, returns their number, and
  -- appends them in order to the buffer; the queue keeps the others in order.
  pub fill-Filled :
      (count : ℕ) (b : TaskBuffer) (q : Q) (xs ys : List ℕ)
      → IsBuffer b xs
      → Holds q ys
      → length xs + count ≤ 64
      → Filled xs ys 0 count (fill source tasks b q count)
  unfolding fill
  fill-Filled zero b q xs ys v h r = record {
    taken = omega arith;
    buffer = rw append-nil v;
    queue = h;
  }
  fill-Filled (suc n) b q xs [] v h r =
      rw (suc-eq-zero n, empty_nil q h)
        (record { taken = omega arith; buffer = rw append-nil v; queue = h })
  fill-Filled (suc n) b q xs (y ∷ ys) v h r =
      rw (suc-eq-zero n, empty_cons q y ys h) (fill_loop-Filled (suc n) 0 _ _ b q xs (y ∷ ys) v h r)
