-- ===== src/Tasking/Channel/Refill.antt =====
-- Filling the buffer of mx/tasking/channel.h: no task is lost, doubled or reordered.
use mathlib.Core.Path.{subst, ap₂}
use mxtasking.Prelude.{
  ℕ, ◌+◌, ◌-◌, ◌<◌, ◌≤◌, ◌≡◌, ◌≢◌, refl, sym, ap, ◌∙◌, List, [], ◌∷◌, ◌++◌, arith, ltb, sub16,
  ltb→lt, ◌⊎◌, inl, inr, if◌then◌else◌, false, Bool-cases, length, length-append, take, drop,
  take-append-drop, length-take, min, append_assoc, append-nil,
}
use mxtasking.Tasking.Task.{Priority, low, normal, TaskInterface}
use mxtasking.Tasking.TaskBuffer
use mxtasking.Tasking.TaskBuffer.{empty}
use mxtasking.Tasking.TaskBuffer.Queues.{queue_source, queue_laws}
use mxtasking.Tasking.TaskBuffer.Fill.{fill-Filled, size-IsBuffer}
use mxtasking.Tasking.TaskBuffer.Slots.{IsBuffer, empty-nil, empty-cons}
use mxtasking.Tasking.Channel.{
  Channel, fill_local, fill_remote, fill_priority, fill, same, set_local,
}
use mxtasking.Tasking.Channel.Contents.{Contents, IsChannel, set_local-IsQueue}
use mxtasking.Tasking.Channel.Rounds.{
  gather, gather-congr, Drained, fill_remote-Drained, numa-fill_remote, regroup, drop_or_all,
  same_refl,
}

-- The tasks of one priority that wait in the queues, in the order in which they are fetched.
abbrev pub waiting : Contents → Priority → ℕ → List ℕ
waiting k p numa = k.locals p ++ gather (k.remotes p) numa 0 8

abbrev local_contents : Contents → Priority → ℕ → Contents
local_contents k p n = record k {
  buffer = k.buffer ++ take n (k.locals p);
  locals = set_local k.locals p (drop n (k.locals p));
}

set_local_self : (f : Priority → List ℕ) (p : Priority) (xs : List ℕ) → set_local f p xs p ≡ xs
set_local_self f p xs = rw (same_refl p)

-- What filling with tasks of the priority p has done to the contents k.
pub record Refilled (p : Priority) (numa : ℕ) (k : Contents) (out : ℕ × Channel) : Type 0 where
  pub after : Contents
  pub moved : List ℕ
  pub valid : IsChannel out.1 after
  pub buffered : after.buffer ≡ k.buffer ++ moved
  pub kept : moved ++ waiting after p numa ≡ waiting k p numa
  pub size : out.0 ≡ length after.buffer
  pub stops : (length after.buffer ≡ 64) ⊎ (waiting after p numa ≡ [])
  pub numa_kept : out.1.numa_node_id ≡ numa
  pub others_kept : (q : Priority) → same p q ≡ false → waiting after q numa ≡ waiting k q numa

-- The local queue first, and then the remote queues while slots are free.
module _ (p : Priority) (numa available : ℕ) (k : Contents) (out : ℕ × Channel) (free : ℕ)
    (fits : length k.buffer + available ≡ 64)
    (left : free ≡ available - min available (length (k.locals p))) (some_free : 0 < free)
    (d : Drained p numa 0 8 (local_contents k p available) free out)
    (numa_kept : out.1.numa_node_id ≡ numa) where
  locals_after : d.after.locals p ≡ drop available (k.locals p)
  locals_after = d.locals_kept p ∙ set_local_self k.locals p (drop available (k.locals p))

  all_local : drop available (k.locals p) ≡ []
  all_local = elim (drop_or_all available (k.locals p)) [ inl e ↦ e | inr e ↦ absurd (omega arith) ]

  buffer_length : length d.after.buffer + out.0 ≡ 64
  buffer_length = omega (
    arith,
    ap length d.buffered,
    length-append (k.buffer ++ take available (k.locals p)) d.moved,
    length-append k.buffer (take available (k.locals p)),
    length-take available (k.locals p),
    d.count,
  )

  with_remote : Refilled p numa k (sub16 64 out.0, out.1)
  with_remote = record {
    after = d.after;
    moved = take available (k.locals p) ++ d.moved;
    valid = d.valid;
    buffered = d.buffered ∙ append_assoc k.buffer (take available (k.locals p)) d.moved;
    kept = rw locals_after (
        regroup available (k.locals p) d.moved (gather (k.remotes p) numa 0 8)
          (gather (d.after.remotes p) numa 0 8) d.kept (inl all_local));
    size = omega (arith, buffer_length);
    stops = elim (d.stops) [
      | inl e ↦ inl (omega (arith, buffer_length))
      | inr e ↦ inr (ap₂ ◌++◌ (locals_after ∙ all_local) e)
    ];
    numa_kept = numa_kept;
    others_kept = λ q h.
        ap₂ ◌++◌ (d.locals_kept q ∙ (rw h))
          (gather-congr (d.after.remotes q) (k.remotes q) numa 0 8 (λ m _. d.others_kept q h _));
  }

-- The local queue alone fills the buffer.
only_local :
    (p : Priority) (numa available : ℕ) (k : Contents) (free : ℕ) (c : Channel)
    → length k.buffer + available ≡ 64
    → free ≡ available - min available (length (k.locals p))
    → free ≡ 0
    → IsChannel c (local_contents k p available)
    → c.numa_node_id ≡ numa
    → Refilled p numa k (sub16 64 free, c)
only_local p numa available k free c fits left none_free v n = record {
  after = local_contents k p available;
  moved = take available (k.locals p);
  valid = v;
  buffered = refl;
  kept = rw (set_local_self k.locals p (drop available (k.locals p))) (
      sym (append_assoc (take available (k.locals p)) (drop available (k.locals p)) _)
      ∙ ap (λ (zs : List ℕ). zs ++ gather (k.remotes p) numa 0 8)
          (take-append-drop available (k.locals p)));
  size = omega (arith, full);
  stops = inl full;
  numa_kept = n;
  others_kept = λ q h. ap (λ (zs : List ℕ). zs ++ gather (k.remotes q) numa 0 8) (rw h);
}
  where
    full : length (k.buffer ++ take available (k.locals p)) ≡ 64
    full = omega (
      arith,
      length-append k.buffer (take available (k.locals p)),
      length-take available (k.locals p),
    )

module _ (tasks : ℕ → TaskInterface) where
  fill_local-IsChannel :
      (p : Priority) (available : ℕ) (c : Channel) (k : Contents)
      → IsChannel c k
      → length k.buffer + available ≤ 64
      → IsChannel (fill_local tasks p available c).1 (local_contents k p available)
        × ((fill_local tasks p available c).0 ≡ available - min available (length (k.locals p)))
        × ((fill_local tasks p available c).1.numa_node_id ≡ c.numa_node_id)
  unfolding fill_local
  fill_local-IsChannel p available c k v r =
      let f =
        fill-Filled queue_source queue_laws tasks available c.task_buffer (c.local_queues p)
          k.buffer (k.locals p) v.buffered (v.local p) r in
      (
        record {
          buffered = f.buffer;
          local = set_local-IsQueue c.local_queues k.locals p _ _ v.local f.queue;
          remote = v.remote;
        },
        omega (arith, f.taken),
        refl,
      )

  fill_priority-Refilled :
      (p : Priority) (available : ℕ) (c : Channel) (k : Contents)
      → IsChannel c k
      → length k.buffer + available ≡ 64
      → Refilled p c.numa_node_id k (fill_priority tasks p available c)
  unfolding fill_priority
  fill_priority-Refilled p available c k v r =
      let (v', a, n) = fill_local-IsChannel p available c k v (omega arith) in
      let (free, c') = fill_local tasks p available c in
      let room : length (local_contents k p available).buffer + free ≤ 64 = omega (
        arith,
        length-append k.buffer (take available (k.locals p)),
        length-take available (k.locals p),
      ) in
      elim (Bool-cases (ltb 0 free)) [
        | inl e ↦ rw e (
            with_remote p c.numa_node_id available k (fill_remote tasks p 8 0 free c') free r a
              (ltb→lt 0 free e)
              (subst
                (λ m.
                  Drained p m 0 8 (local_contents k p available) free
                    (fill_remote tasks p 8 0 free c'))
                n
                (fill_remote-Drained tasks p 8 0 free c' (local_contents k p available) v'
                  (omega arith) room))
              (numa-fill_remote tasks p 8 0 free c' ∙ n))
        | inr e ↦ rw e (only_local p c.numa_node_id available k free c' r a (ground arith) v' n)
      ]

-- What a channel holds, in the order in which its worker will execute it: the buffer, then the
-- tasks of normal priority, then those of low priority.
abbrev pub schedule : Contents → ℕ → List ℕ
schedule k numa = k.buffer ++ waiting k normal numa ++ waiting k low numa

-- What a call of `fill` has done to the contents k.
pub record Fetched (numa : ℕ) (k : Contents) (out : ℕ × Channel) : Type 0 where
  pub after : Contents
  pub valid : IsChannel out.1 after
  pub kept : schedule after numa ≡ schedule k numa
  pub size : out.0 ≡ length after.buffer
  pub idle : after.buffer ≡ [] → schedule k numa ≡ []
  pub numa_kept : out.1.numa_node_id ≡ numa

normal_kept :
    (numa : ℕ) (k : Contents) (out : ℕ × Channel) (f : Refilled normal numa k out)
    → schedule f.after numa ≡ schedule k numa
normal_kept numa k out f =
    rw (f.buffered, f.others_kept low refl)
      (ap (λ (zs : List ℕ). zs ++ waiting k low numa)
        (append_assoc k.buffer f.moved _ ∙ ap (λ (zs : List ℕ). k.buffer ++ zs) f.kept))

normal-Fetched :
    (numa : ℕ) (k : Contents) (out : ℕ × Channel) (f : Refilled normal numa k out)
    → f.after.buffer ≢ []
    → Fetched numa k out
normal-Fetched numa k out f busy = record {
  after = f.after;
  valid = f.valid;
  kept = normal_kept numa k out f;
  size = f.size;
  idle = λ e. absurd (busy e);
  numa_kept = f.numa_kept;
}

-- Tasks of low priority are fetched where there are none of normal priority.
module _ (numa : ℕ) (k : Contents) (out out' : ℕ × Channel) (f : Refilled normal numa k out)
    (g : Refilled low numa f.after out') (none_normal : f.after.buffer ≡ []) where
  no_normal : waiting g.after normal numa ≡ []
  no_normal =
      g.others_kept normal refl
      ∙ elim (f.stops) [ inl e ↦ absurd (omega (arith, e, ap length none_normal)) | inr e ↦ e ]

  schedule_low : schedule g.after numa ≡ schedule f.after numa
  schedule_low =
      rw (no_normal, g.buffered, none_normal, ← g.others_kept normal refl, no_normal)
        (rw append-nil g.kept)

  low-Fetched : Fetched numa k out'
  low-Fetched = record {
    after = g.after;
    valid = g.valid;
    kept = schedule_low ∙ normal_kept numa k out f;
    size = g.size;
    idle = λ e. elim (g.stops) [
      | inl n ↦ absurd (omega (arith, n, ap length e))
      | inr n ↦ sym (schedule_low ∙ normal_kept numa k out f) ∙ (rw (e, no_normal, n))
    ];
    numa_kept = g.numa_kept;
  }

module _ (tasks : ℕ → TaskInterface) where
  -- A call of `fill` on a channel whose buffer is not full moves waiting tasks into the buffer and
  -- keeps, task by task, the order in which they will be executed: the buffer, then those of
  -- normal priority, then those of low priority, in each the local queue before the remote queues
  -- from the channel's own region on. It returns the number of tasks in the buffer, and leaves the
  -- buffer empty only if no task waits at all.
  pub fill-Fetched :
      (c : Channel) (k : Contents)
      → IsChannel c k
      → length k.buffer < 64
      → Fetched c.numa_node_id k (fill tasks c)
  unfolding fill TaskBuffer.available_slots
  fill-Fetched c k v h =
      let out : ℕ × Channel =
        fill_priority tasks normal (TaskBuffer.available_slots c.task_buffer) c in
      let f : Refilled normal c.numa_node_id k out =
        fill_priority-Refilled tasks normal (TaskBuffer.available_slots c.task_buffer) c k v
          (omega (arith, size-IsBuffer c.task_buffer k.buffer v.buffered h)) in
      go out f (f.after.buffer) refl
    where
      go :
          (out : ℕ × Channel) (f : Refilled normal c.numa_node_id k out) (xs : List ℕ)
          → f.after.buffer ≡ xs
          → Fetched c.numa_node_id k
              (if empty out.1.task_buffer then fill_priority tasks low 64 out.1 else out)
      go out f [] e =
          let b : IsBuffer out.1.task_buffer [] =
            subst (IsBuffer out.1.task_buffer) e f.valid.buffered in
          rw (empty-nil out.1.task_buffer b) (
            low-Fetched c.numa_node_id k out (fill_priority tasks low 64 out.1) f
              (subst (λ m. Refilled low m f.after (fill_priority tasks low 64 out.1)) f.numa_kept
                (fill_priority-Refilled tasks low 64 out.1 f.after f.valid
                  (omega (arith, ap length e))))
              e)
      go out f (x ∷ xs) e =
          let b : IsBuffer out.1.task_buffer (x ∷ xs) =
            subst (IsBuffer out.1.task_buffer) e f.valid.buffered in
          rw (empty-cons out.1.task_buffer x xs b) (
            normal-Fetched c.numa_node_id k out f
              (λ n. absurd (omega (arith, ap length (sym e ∙ n)))))
