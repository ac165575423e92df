-- ===== src/Util/MpscQueue.antt =====
-- mx/util/mpsc_queue.h: an intrusive FIFO with an item of its own, the stub, in place of an empty
-- list. `tail` is the consumer's end and `head` the producers' end; `end` is the address of the
-- stub, whose `_next` field stands in the store `next` as those of the items do. Each call is run
-- to its end before the next begins: a `pop_front` between the exchange and the link of a
-- concurrent `push_back` is not modelled here.
pub mod Fifo
pub mod Frame
use mxtasking.Prelude.{ℕ, Bool, ◌==◌, ◌&&◌, if◌then◌else◌}
use mxtasking.Util.Queue.{null, write}

pub record MpscQueue : Type 0 where
  pub head : ℕ
  pub tail : ℕ
  pub end : ℕ
  pub next : ℕ → ℕ

-- The constructor, with the stub at the address `stub`.
unfoldable pub create : ℕ → (ℕ → ℕ) → MpscQueue
create stub next = record { head = stub; tail = stub; end = stub; next = write next stub null }

unfoldable pub push_back : MpscQueue → ℕ → MpscQueue
push_back q item = record q { head = item; next = write (write q.next item null) q.head item }

-- `push_back(begin, end)`, for items that are linked among themselves.
pub push_back_all : MpscQueue → ℕ → ℕ → MpscQueue
push_back_all q begin end = record q {
  head = end;
  next = write (write q.next end null) q.head begin;
}

pub empty : MpscQueue → Bool
empty q = q.tail == q.end && q.next q.end == null

-- The part of `pop_front` behind `next == nullptr`: `tail` is the last linked item.
pop_last : MpscQueue → ℕ → ℕ × MpscQueue
pop_last q tail =
    if tail == q.head
    then (let r = push_back q q.end in
        if r.next tail == null then (null, r) else (tail, record r { tail = r.next tail }))
    else (null, q)

-- The part of `pop_front` behind the test for the stub, with its variables `tail` and `next`.
pub pop_item : MpscQueue → ℕ → ℕ → ℕ × MpscQueue
unfolding pop_last
pop_item q tail next = if next == null then pop_last q tail else (tail, record q { tail = next })

pub pop_front : MpscQueue → ℕ × MpscQueue
unfolding pop_item
pop_front q =
    let next = q.next q.tail in
    if q.tail == q.end
    then (if next == null
        then (null, q)
        else pop_item (record q { tail = next }) next (q.next next))
    else pop_item q q.tail next
