-- ===== src/Tasking/TaskBuffer/Slots.antt =====
-- The ring of mx/tasking/task_buffer.h as the list of its tasks, oldest first.
use mathlib.Core.Path.{subst}
use mxtasking.Prelude.{
  ℕ, zero, suc, ◌+◌, ◌%◌, ◌^◌, ◌≤◌, ◌<◌, ◌≡◌, ◌≢◌, refl, sym, ap, ◌∙◌, List, [], ◌∷◌, ◌++◌, arith,
  ◌==◌, if◌then◌else◌, Bool, true, false, Bool-cases, ==_iff, dec_lt, ℕ_discrete, inl, inr, length,
  length-append, get_or,
}
use mxtasking.Prelude.Bits.{bit_and-sixty_three}
use mxtasking.Tasking.Task.{TaskInterface}
use mxtasking.Tasking.TaskBuffer.{TaskBuffer, Slot, normalize, next, put, update, empty, create}

abbrev pub NonNull : List ℕ → Type 0
NonNull [] = Unit {0}
NonNull (x ∷ xs) = (x ≢ 0) × NonNull xs

-- The slots from the head on hold the tasks xs, and all other slots are null.
pub record IsBuffer (b : TaskBuffer) (xs : List ℕ) : Type 0 where
  pub head_in : b.head < 64
  pub tail_at : b.tail ≡ (b.head + length xs) % 64
  pub room : length xs ≤ 64
  pub live : NonNull xs
  pub held : (i : ℕ) → i < 64 → (b.buffer ((b.head + i) % 64)).task ≡ get_or xs i 0

normalize-eq-mod : (i : ℕ) → normalize i ≡ i % 64
unfolding normalize
normalize-eq-mod i = bit_and-sixty_three i

get_or-above : (xs : List ℕ) (i : ℕ) → length xs ≤ i → get_or xs i 0 ≡ 0
get_or-above [] i h = refl
get_or-above (x ∷ xs) zero h = absurd (omega arith)
get_or-above (x ∷ xs) (suc i) h = get_or-above xs i (omega arith)

get_or-append_ne :
    (xs : List ℕ) (a i : ℕ) → i ≢ length xs → get_or (xs ++ a ∷ []) i 0 ≡ get_or xs i 0
get_or-append_ne [] a zero h = absurd (h refl)
get_or-append_ne [] a (suc i) h = refl
get_or-append_ne (x ∷ xs) a zero h = refl
get_or-append_ne (x ∷ xs) a (suc i) h = get_or-append_ne xs a i (λ e. h (ap suc e))

get_or-append_self : (xs : List ℕ) (a : ℕ) → get_or (xs ++ a ∷ []) (length xs) 0 ≡ a
get_or-append_self [] a = refl
get_or-append_self (x ∷ xs) a = get_or-append_self xs a

NonNull-append : (xs : List ℕ) (a : ℕ) → NonNull xs → a ≢ 0 → NonNull (xs ++ a ∷ [])
NonNull-append [] a h z = (z, tt)
NonNull-append (x ∷ xs) a h z = (h.0, NonNull-append xs a h.1 z)

pub create-IsBuffer : (distance : ℕ) → IsBuffer (create distance) []
create-IsBuffer distance = record {
  head_in = omega arith;
  tail_at = refl;
  room = omega arith;
  live = tt;
  held = λ i h. refl;
}

next-index : (h : ℕ) → h < 64 → normalize ((h + 1) % 2 ^ 16) ≡ (h + 1) % 64
next-index h p = omega (arith, normalize-eq-mod ((h + 1) % 2 ^ 16))

-- Clearing the slot at the head shifts what the slots hold by one.
held_tail :
    (f : ℕ → Slot) (s : Slot) (h x : ℕ) (xs : List ℕ)
    → h < 64
    → length (x ∷ xs) ≤ 64
    → s.task ≡ 0
    → ((i : ℕ) → i < 64 → (f ((h + i) % 64)).task ≡ get_or (x ∷ xs) i 0)
    → (i : ℕ) → i < 64
    → (update f h s (((h + 1) % 64 + i) % 64)).task ≡ get_or xs i 0
held_tail f s h x xs hh room z held i p = elim (dec_lt i 63) [
  | yes q ↦
      let e : ((h + 1) % 64 + i) % 64 ≡ (h + suc i) % 64 = omega arith in
      let ne : h ≢ (h + suc i) % 64 = omega arith in rw e (ground (arith, held (suc i)))
  | no q ↦
      let e : ((h + 1) % 64 + i) % 64 ≡ h = omega arith in
      rw e (ground (arith, get_or-above xs i (omega arith)))
]

-- The first slot of a buffer.
head-slot : (b : TaskBuffer) (xs : List ℕ) → IsBuffer b xs → (b.buffer b.head).task ≡ get_or xs 0 0
head-slot b xs v =
    subst (λ k. (b.buffer k).task ≡ get_or xs 0 0) (omega (arith, v.head_in))
      (v.held 0 (omega arith))

pub next-nil : (b : TaskBuffer) → IsBuffer b [] → next b ≡ (0, b)
unfolding next
next-nil b v = rw (head-slot b [] v)

pub next-cons :
    (b : TaskBuffer) (x : ℕ) (xs : List ℕ)
    → IsBuffer b (x ∷ xs)
    → ((next b).0 ≡ x) × IsBuffer (next b).1 xs
unfolding next
next-cons b x xs v = elim (Bool-cases ((b.buffer b.head).task == 0)) [
  | inl e ↦ absurd (v.live.0 (sym (head-slot b (x ∷ xs) v) ∙ (==_iff _ _).0 e))
  | inr e ↦ rw e (
    head-slot b (x ∷ xs) v,
    record {
      head_in = omega (arith, next-index b.head v.head_in);
      tail_at = omega (arith, next-index b.head v.head_in, v.tail_at);
      room = omega (arith, v.room);
      live = v.live.1;
      held =
          rw (next-index b.head v.head_in)
            (held_tail b.buffer _ b.head x xs v.head_in v.room refl v.held);
    },
  )
]

-- The task of every slot after a task was put in.
put-task :
    (tasks : ℕ → TaskInterface) (b : TaskBuffer) (f : Bool) (p task j : ℕ)
    → ((put tasks b f p task).buffer j).task ≡ (if b.tail == j then task else (b.buffer j).task)
unfolding put
put-task tasks b f p task j = ground arith

-- Putting a task in a buffer that is not full appends it.
pub put-IsBuffer :
    (tasks : ℕ → TaskInterface) (b : TaskBuffer) (f : Bool) (p task : ℕ) (xs : List ℕ)
    → IsBuffer b xs
    → length xs < 64
    → task ≢ 0
    → IsBuffer (put tasks b f p task) (xs ++ task ∷ [])
unfolding put
put-IsBuffer tasks b f p task xs v r z = record {
  head_in = v.head_in;
  tail_at = omega (
    arith,
    next-index b.tail (omega (arith, v.tail_at)),
    length-append xs (task ∷ []),
    v.tail_at,
    v.head_in,
  );
  room = omega (arith, length-append xs (task ∷ []));
  live = NonNull-append xs task v.live z;
  held = λ i h. put-task tasks b f p task ((b.head + i) % 64) ∙ held_put i h;
}
  where
    held_put :
        (i : ℕ)
        → i < 64
        → (if b.tail == ((b.head + i) % 64) then task else (b.buffer ((b.head + i) % 64)).task)
          ≡ get_or (xs ++ task ∷ []) i 0
    held_put i h = elim (ℕ_discrete i (length xs)) [
      | yes e ↦
          let here : b.tail ≡ (b.head + i) % 64 = rw e (v.tail_at) in
          rw ((==_iff _ _).1 here, e) (sym (get_or-append_self xs task))
      | no ne ↦
          let other : b.tail ≢ (b.head + i) % 64 = omega (arith, v.tail_at, v.head_in) in
          ground (arith, v.held i h, get_or-append_ne xs task i ne)
    ]

pub empty-nil : (b : TaskBuffer) → IsBuffer b [] → empty b ≡ true
unfolding empty
empty-nil b v = rw (head-slot b [] v)

pub empty-cons : (b : TaskBuffer) (x : ℕ) (xs : List ℕ) → IsBuffer b (x ∷ xs) → empty b ≡ false
unfolding empty
empty-cons b x xs v = ground (arith, head-slot b (x ∷ xs) v, v.live.0)
