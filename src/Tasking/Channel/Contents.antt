-- ===== src/Tasking/Channel/Contents.antt =====
-- What a channel of mx/tasking/channel.h holds: the lists of its buffer and of its queues.
use mxtasking.Prelude.{
  ℕ, ◌<◌, ◌≡◌, ◌≢◌, refl, ap, List, [], ◌∷◌, ◌++◌, ◌==◌, ◌&&◌, Bool-cases, inl, inr,
}
use mathlib.Core.Path.{subst}
use mxtasking.Util.Queue.{Queue}
use mxtasking.Util.MpscQueue.{MpscQueue}
use mxtasking.Util.Queue.Chain.{NotIn}
use mxtasking.Util.Queue.{null}
use mxtasking.Util.Queue.Fifo.{IsQueue, push_back-IsQueue}
use mxtasking.Util.MpscQueue.Fifo.{IsMpsc, push_back-IsMpsc}
use mxtasking.Tasking.Task.{Priority, low, normal, TaskInterface}
use mxtasking.Tasking.TaskBuffer.Slots.{IsBuffer, next-cons, next-nil}
use mxtasking.Tasking.Channel.{
  Channel, next, push_back_local, push_back_remote, same, set_local, set_remote,
}

pub record Contents : Type 0 where
  pub buffer : List ℕ
  pub locals : Priority → List ℕ
  pub remotes : Priority → ℕ → List ℕ

-- The channel's buffer and queues are valid, and hold the listed tasks.
pub record IsChannel (c : Channel) (k : Contents) : Type 0 where
  pub buffered : IsBuffer c.task_buffer k.buffer
  pub local : (p : Priority) → IsQueue (c.local_queues p) (k.locals p)
  pub remote : (p : Priority) (i : ℕ) → i < 8 → IsMpsc (c.remote_queues p i) (k.remotes p i)

pub set_local-IsQueue :
    (f : Priority → Queue) (g : Priority → List ℕ) (p : Priority) (q : Queue) (xs : List ℕ)
    → ((p' : Priority) → IsQueue (f p') (g p'))
    → IsQueue q xs
    → (p' : Priority) → IsQueue (set_local f p q p') (set_local g p xs p')
set_local-IsQueue f g low q xs all one low = one
set_local-IsQueue f g low q xs all one normal = all normal
set_local-IsQueue f g normal q xs all one low = all low
set_local-IsQueue f g normal q xs all one normal = one

pub set_remote-IsMpsc :
    (f : Priority → ℕ → MpscQueue) (g : Priority → ℕ → List ℕ) (p : Priority) (i : ℕ)
    (q : MpscQueue) (xs : List ℕ)
    → ((p' : Priority) (j : ℕ) → j < 8 → IsMpsc (f p' j) (g p' j))
    → IsMpsc q xs
    → (p' : Priority) (j : ℕ) → j < 8
    → IsMpsc (set_remote f p i q p' j) (set_remote g p i xs p' j)
set_remote-IsMpsc f g p i q xs all one p' j h = elim (Bool-cases (same p p' && i == j)) [
  | inl e ↦ rw e one
  | inr e ↦ rw e (all p' j h)
]

-- `push_back_local` appends the task to the local queue of the task's priority, and
-- `push_back_remote` to the queue of the given region and the task's priority; all else stays.
pub push_back_local-IsChannel :
    (tasks : ℕ → TaskInterface) (c : Channel) (k : Contents) (task : ℕ)
    → IsChannel c k
    → task ≢ null
    → NotIn task (k.locals (tasks task).priority)
    → IsChannel (push_back_local tasks c task) (record k {
      locals =
          set_local k.locals (tasks task).priority (k.locals (tasks task).priority ++ task ∷ []);
    })
unfolding push_back_local
push_back_local-IsChannel tasks c k task v z n = record {
  buffered = v.buffered;
  local =
      set_local-IsQueue c.local_queues k.locals (tasks task).priority _ _ v.local
        (push_back-IsQueue _ _ task (v.local (tasks task).priority) z n);
  remote = v.remote;
}

pub push_back_remote-IsChannel :
    (tasks : ℕ → TaskInterface) (c : Channel) (k : Contents) (task node : ℕ)
    → IsChannel c k
    → task ≢ null
    → node < 8
    → NotIn task
        ((c.remote_queues (tasks task).priority node).end ∷ k.remotes (tasks task).priority node)
    → IsChannel (push_back_remote tasks c task node) (record k {
      remotes =
          set_remote k.remotes
            (tasks task).priority
            node
            (k.remotes (tasks task).priority node ++ task ∷ []);
    })
unfolding push_back_remote
push_back_remote-IsChannel tasks c k task node v z h n = record {
  buffered = v.buffered;
  local = v.local;
  remote =
      set_remote-IsMpsc c.remote_queues k.remotes (tasks task).priority node _ _ v.remote
        (push_back-IsMpsc _ _ task (v.remote (tasks task).priority node h) z n);
}

-- `next` takes the oldest task of the buffer.
pub next-IsChannel :
    (c : Channel) (k : Contents) (x : ℕ) (xs : List ℕ)
    → IsChannel c k
    → k.buffer ≡ x ∷ xs
    → ((next c).0 ≡ x) × IsChannel (next c).1 (record k { buffer = xs })
unfolding next
next-IsChannel c k x xs v e =
    let (p, b) = next-cons c.task_buffer x xs (subst (IsBuffer c.task_buffer) e v.buffered) in
    (p, record { buffered = b; local = v.local; remote = v.remote })

pub next-none : (c : Channel) (k : Contents) → IsChannel c k → k.buffer ≡ [] → (next c).0 ≡ 0
unfolding next
next-none c k v e =
    ap (λ r. r.0) (next-nil c.task_buffer (subst (IsBuffer c.task_buffer) e v.buffered))

pub next-numa : (c : Channel) → (next c).1.numa_node_id ≡ c.numa_node_id
unfolding next
next-numa c = refl
