-- ===== src/Util/Queue.antt =====
-- mx/util/queue.h and queue_item.h: an intrusive singly linked FIFO of one producer and one
-- consumer. A pointer is a number, `null` is 0, and the `_next` fields of the items are the store
-- `next`.
pub mod Chain
pub mod Agreement
pub mod Fifo
use mxtasking.Prelude.{ℕ, Option, none, some, ◌==◌, if◌then◌else◌, Bool}

abbrev pub null : ℕ
null = 0

-- `item->next(p)`
abbrev pub write : (ℕ → ℕ) → ℕ → ℕ → ℕ → ℕ
write next item p q = if item == q then p else next q

pub record Queue : Type 0 where
  pub head : ℕ
  pub tail : ℕ
  pub next : ℕ → ℕ

pub push_back : Queue → ℕ → Queue
push_back q item =
    let cleared = write q.next item null in
    if q.tail == null
    then record { head = item; tail = item; next = cleared }
    else record { head = q.head; tail = item; next = write cleared q.tail item }

unfoldable pub empty : Queue → Bool
empty q = q.head == null

-- The pointer that is returned, `null` for an empty queue, and the queue after it.
pub pop_front : Queue → ℕ × Queue
pop_front q = if q.head == null then (null, q) else (
  q.head,
  record q { head = q.next q.head; tail = if q.next q.head == null then null else q.tail },
)
