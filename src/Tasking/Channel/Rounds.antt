-- ===== src/Tasking/Channel/Rounds.antt =====
-- The loop of mx/tasking/channel.h over the remote queues of one priority.
use mathlib.Core.Path.{subst, ap₂}
use mxtasking.Prelude.{
  ℕ, zero, suc, ◌+◌, ◌-◌, ◌%◌, ◌<◌, ◌≤◌, ◌≡◌, ◌≢◌, refl, sym, ap, ◌∙◌, List, [], ◌∷◌, ◌++◌, arith,
  ◌⊎◌, inl, inr, true, false, length, length-append, take, drop, take-append-drop, length-take, min,
  append_assoc, append-nil,
}
use mxtasking.Prelude.Bits.{bit_and-seven}
use mxtasking.Tasking.Task.{Priority, low, normal, TaskInterface}
use mxtasking.Tasking.TaskBuffer.Queues.{mpsc_source, mpsc_laws}
use mxtasking.Tasking.TaskBuffer.Fill.{fill-Filled}
use mxtasking.Tasking.Channel.{Channel, fill_one, fill_remote, queue_index, same, set_remote}
use mxtasking.Tasking.Channel.Contents.{Contents, IsChannel, set_remote-IsMpsc}

-- The tasks of `left` queues, in the order in which the rounds from `i` on read them.
abbrev pub gather : (ℕ → List ℕ) → ℕ → ℕ → ℕ → List ℕ
gather h numa i zero = []
gather h numa i (suc left) = h ((numa + i) % 8) ++ gather h numa (i + 1) left

pub gather-congr :
    (g h : ℕ → List ℕ) (numa i left : ℕ)
    → ((m : ℕ) → m < left → g ((numa + (i + m)) % 8) ≡ h ((numa + (i + m)) % 8))
    → gather g numa i left ≡ gather h numa i left
gather-congr g h numa i zero e = refl
gather-congr g h numa i (suc left) e =
    ap₂ ◌++◌
      (subst (λ n. g ((numa + n) % 8) ≡ h ((numa + n) % 8)) (omega arith) (e 0 (omega arith)))
      (gather-congr g h numa (i + 1) left (λ m q.
        subst (λ n. g ((numa + n) % 8) ≡ h ((numa + n) % 8)) (omega arith)
          (e (suc m) (omega arith))))

pub drop_or_all : (n : ℕ) (ys : List ℕ) → (drop n ys ≡ []) ⊎ (min n (length ys) ≡ n)
drop_or_all zero ys = inr (omega arith)
drop_or_all (suc n) [] = inl refl
drop_or_all (suc n) (y ∷ ys) = elim (drop_or_all n ys) [
  | inl e ↦ inl e
  | inr e ↦ inr (omega (arith, e))
]

pub append-eq_nil : (xs : List ℕ) → length xs ≡ 0 → xs ≡ []
append-eq_nil [] h = refl
append-eq_nil (x ∷ xs) h = absurd (omega arith)

-- The contents after a round on the queue at `j` that takes at most `n` tasks.
abbrev pub one_contents : Contents → Priority → ℕ → ℕ → Contents
one_contents k p j n = record k {
  buffer = k.buffer ++ take n (k.remotes p j);
  remotes = set_remote k.remotes p j (drop n (k.remotes p j));
}

index-eq-mod : (c : Channel) (i : ℕ) → queue_index c i ≡ (c.numa_node_id + i) % 8
index-eq-mod c i = bit_and-seven (c.numa_node_id + i)

pub same_refl : (p : Priority) → same p p ≡ true
same_refl low = refl
same_refl normal = refl

set_remote_self :
    (f : Priority → ℕ → List ℕ) (p : Priority) (j : ℕ) (xs : List ℕ) → set_remote f p j xs p j ≡ xs
set_remote_self f p j xs = rw (same_refl p) (ground arith)

set_remote-ne :
    (f : Priority → ℕ → List ℕ) (p : Priority) (i : ℕ) (xs : List ℕ) (j : ℕ)
    → i ≢ j
    → set_remote f p i xs p j ≡ f p j
set_remote-ne f p i xs j h = rw (same_refl p) (ground arith)

module _ (tasks : ℕ → TaskInterface) where
  fill_one-IsChannel :
      (p : Priority) (j available : ℕ) (c : Channel) (k : Contents)
      → IsChannel c k
      → j < 8
      → length k.buffer + available ≤ 64
      → IsChannel (fill_one tasks p j available c).1 (one_contents k p j available)
        × ((fill_one tasks p j available c).0 ≡ available - min available (length (k.remotes p j)))
        × ((fill_one tasks p j available c).1.numa_node_id ≡ c.numa_node_id)
  unfolding fill_one
  fill_one-IsChannel p j available c k v h r =
      let f =
        fill-Filled mpsc_source mpsc_laws tasks available c.task_buffer (c.remote_queues p j)
          k.buffer (k.remotes p j) v.buffered (v.remote p j h) r in
      (
        record {
          buffered = f.buffer;
          local = v.local;
          remote = set_remote-IsMpsc c.remote_queues k.remotes p j _ _ v.remote f.queue;
        },
        omega (arith, f.taken),
        refl,
      )

take_all : (n : ℕ) (ys : List ℕ) → drop n ys ≡ [] → take n ys ≡ ys
take_all n ys d =
    sym (append-nil (take n ys))
    ∙ ap (λ (zs : List ℕ). take n ys ++ zs) (sym d)
    ∙ take-append-drop n ys

-- Taking first from the head of a list and then from the rest keeps the list: either nothing is
-- left of the head, or nothing more is moved.
pub regroup :
    (n : ℕ) (ys moved rest rest' : List ℕ)
    → moved ++ rest' ≡ rest
    → (drop n ys ≡ []) ⊎ (length moved ≡ 0)
    → (take n ys ++ moved) ++ (drop n ys ++ rest') ≡ ys ++ rest
regroup n ys moved rest rest' e (inl d) = rw (take_all n ys d, d, ← e) (append_assoc ys moved rest')
regroup n ys moved rest rest' e (inr l) =
    let nothing : moved ≡ [] = append-eq_nil moved l in
    let same_rest : rest' ≡ rest = ap (λ (zs : List ℕ). zs ++ rest') (sym nothing) ∙ e in
    rw (nothing, append-nil)
      (sym (append_assoc (take n ys) (drop n ys) rest')
        ∙ ap₂ ◌++◌ (take-append-drop n ys) same_rest)

-- What rounds from `i` on have done to the contents k of a channel with `available` free slots.
pub record Drained (p : Priority) (numa i left : ℕ) (k : Contents) (available : ℕ)
    (out : ℕ × Channel) : Type 0 where
  pub after : Contents
  pub moved : List ℕ
  pub valid : IsChannel out.1 after
  pub buffered : after.buffer ≡ k.buffer ++ moved
  pub kept : moved ++ gather (after.remotes p) numa i left ≡ gather (k.remotes p) numa i left
  pub count : out.0 + length moved ≡ available
  pub stops : (out.0 ≡ 0) ⊎ (gather (after.remotes p) numa i left ≡ [])
  pub locals_kept : (q : Priority) → after.locals q ≡ k.locals q
  pub frame :
      (j : ℕ) → ((m : ℕ) → m < left → (numa + (i + m)) % 8 ≢ j) → after.remotes p j ≡ k.remotes p j
  pub others_kept : (q : Priority) → same p q ≡ false → (j : ℕ) → after.remotes q j ≡ k.remotes q j

-- One round before the others.
module _ (p : Priority) (numa i left available : ℕ) (k : Contents) (room : i + suc left ≤ 8)
    (out : ℕ × Channel)
    (rest : Drained p numa
      (i + 1)
      left
      (one_contents k p ((numa + i) % 8) available)
      (available - min available (length (k.remotes p ((numa + i) % 8))))
      out) where
  open rest use {after, moved, valid, buffered, kept, count, stops, locals_kept, frame, others_kept}

  abbrev here : ℕ
  here = (numa + i) % 8

  abbrev items : List ℕ
  items = k.remotes p here

  after_here : after.remotes p here ≡ drop available items
  after_here =
      frame here (λ m h. omega arith) ∙ set_remote_self k.remotes p here (drop available items)

  later_same :
      gather ((one_contents k p here available).remotes p) numa (i + 1) left
      ≡ gather (k.remotes p) numa (i + 1) left
  later_same =
      gather-congr ((one_contents k p here available).remotes p) (k.remotes p) numa (i + 1) left
        (λ m h.
          set_remote-ne k.remotes p here (drop available items) ((numa + (i + 1 + m)) % 8)
            (omega arith))

  no_more : (drop available items ≡ []) ⊎ (length moved ≡ 0)
  no_more = elim (drop_or_all available items) [
    | inl e ↦ inl e
    | inr e ↦ inr (omega (arith, e, count))
  ]

  stops_all : (out.0 ≡ 0) ⊎ (gather (after.remotes p) numa i (suc left) ≡ [])
  stops_all = elim stops [
    | inl e ↦ inl e
    | inr e ↦ elim (drop_or_all available items) [
      | inl d ↦ inr (ap₂ ◌++◌ (after_here ∙ d) e)
      | inr d ↦ inl (omega (arith, d, count))
    ]
  ]

  round : Drained p numa i (suc left) k available out
  round = record {
    after = after;
    moved = take available items ++ moved;
    valid = valid;
    buffered = buffered ∙ append_assoc k.buffer (take available items) moved;
    kept = rw after_here (regroup available items moved _ _ (kept ∙ later_same) no_more);
    count =
        omega
          (arith, length-append (take available items) moved, length-take available items, count);
    stops = stops_all;
    locals_kept = locals_kept;
    frame = λ j h.
        frame j (λ m q e. h (suc m) (omega arith) (omega arith))
        ∙ set_remote-ne k.remotes p here (drop available items) j
            (λ e. h 0 (omega arith) (omega arith));
    others_kept = λ q h j. others_kept q h j ∙ rw h;
  }

module _ (tasks : ℕ → TaskInterface) where
  pub fill_remote-Drained :
      (p : Priority) (left i available : ℕ) (c : Channel) (k : Contents)
      → IsChannel c k
      → i + left ≤ 8
      → length k.buffer + available ≤ 64
      → Drained p c.numa_node_id i left k available (fill_remote tasks p left i available c)
  unfolding fill_remote
  fill_remote-Drained p zero i available c k v h r = record {
    after = k;
    moved = [];
    valid = v;
    buffered = sym (append-nil k.buffer);
    kept = refl;
    count = omega arith;
    stops = inr refl;
    locals_kept = λ q. refl;
    frame = λ j m. refl;
    others_kept = λ q m j. refl;
  }
  fill_remote-Drained p (suc left) i available c k v h r =
      let (v', a, n) =
        fill_one-IsChannel tasks p (queue_index c i) available c k v
          (omega (arith, index-eq-mod c i)) r in
      let k' : Contents = one_contents k p (queue_index c i) available in
      let b : length k'.buffer + (fill_one tasks p (queue_index c i) available c).0 ≤ 64 = omega (
        arith,
        a,
        length-append k.buffer (take available (k.remotes p (queue_index c i))),
        length-take available (k.remotes p (queue_index c i)),
      ) in
      let (m, c') = fill_one tasks p (queue_index c i) available c in
      let out : ℕ × Channel = fill_remote tasks p left (i + 1) m c' in
      let ih : Drained p c'.numa_node_id (i + 1) left k' m out =
        fill_remote-Drained p left (i + 1) m c' k' v' (omega arith) b in
      round p c.numa_node_id i left available k h out (
        subst
          (λ j.
            Drained p c.numa_node_id (i + 1) left (one_contents k p j available)
              (available - min available (length (k.remotes p j))) out)
          (index-eq-mod c i)
          (subst (λ x. Drained p c.numa_node_id (i + 1) left k' x out) a
            (subst (λ x. Drained p x (i + 1) left k' m out) n ih)))

  pub numa-fill_remote :
      (p : Priority) (left i available : ℕ) (c : Channel)
      → (fill_remote tasks p left i available c).1.numa_node_id ≡ c.numa_node_id
  unfolding fill_remote fill_one
  numa-fill_remote p zero i available c = refl
  numa-fill_remote p (suc left) i available c =
      let (m, c') = fill_one tasks p (queue_index c i) available c in
      numa-fill_remote p left (i + 1) m c'
