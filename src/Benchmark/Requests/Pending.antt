-- ===== src/Benchmark/Requests/Pending.antt =====
-- The requests that application/blinktree_benchmark/request_scheduler.h hands out: in order, each
-- once, and never too many at a time.
use mxtasking.Prelude.{
  ℕ, ◌+◌, ◌-◌, ◌^◌, ◌≤◌, ◌<◌, ◌≡◌, refl, sym, ap, ◌∙◌, min, true, false, ltb, leb, Bool-cases, inl,
  inr, ◌⊎◌, arith, add64, sub64,
}
use mxtasking.Benchmark.Requests.{
  ReferenceCounter, RequestIndex, is_finished, has_new, Workload, next_batch, RequestContainer,
  refill, pending, next,
}

-- How many requests the workload has given away.
abbrev given : Workload → ℕ
given w = min w.current_index w.size

-- One container draws from a workload: what was given away was scheduled or is in the buffer, in
-- order, and the pending requests are within the limit.
pub record IsInOrder (c : RequestContainer) : Type 0 where
  pub small : c.workload.size < 2 ^ 62
  pub counted : c.scheduled_requests + c.local_buffer.count ≡ given c.workload
  pub buffered : (c.local_buffer.count ≡ 0) ⊎ (c.local_buffer.index ≡ c.scheduled_requests)
  pub done :
      c.finished_requests.local_counter + c.finished_requests.remote_counter ≤ c.scheduled_requests
  pub limit :
      c.scheduled_requests
      ≤ c.finished_requests.local_counter + c.finished_requests.remote_counter
        + c.max_pending_requests
  pub bounded : c.max_pending_requests < 2 ^ 62

refill-IsInOrder :
    (c : RequestContainer)
    → IsInOrder c
    → c.workload.current_index < 2 ^ 63
    → IsInOrder (refill c)
      × ((ltb 0 (refill c).local_buffer.count ≡ true)
          ⊎ ((refill c).scheduled_requests ≡ c.workload.size))
unfolding refill next_batch
refill-IsInOrder c h small = elim (Bool-cases (has_new c.local_buffer)) [
  | inl t ↦ rw t (h, inl t)
  | inr t ↦ elim (Bool-cases (ltb c.workload.current_index c.workload.size)) [
    | inl l ↦
        rw (t, l)
          (
            record {
              small = h.small;
              counted = ground (arith, h.counted, h.small);
              buffered = inr (ground (arith, h.counted, h.small));
              done = h.done;
              limit = h.limit;
              bounded = h.bounded;
            },
            inl (ground (arith, h.counted, h.small)),
          )
    | inr l ↦
        rw (t, l)
          (
            record {
              small = h.small;
              counted = ground (arith, h.counted, h.small);
              buffered = inl refl;
              done = h.done;
              limit = h.limit;
              bounded = h.bounded;
            },
            inr (ground (arith, h.counted, h.small)),
          )
  ]
]

-- How many requests the tasks have finished.
abbrev pub finished : RequestContainer → ℕ
finished c = c.finished_requests.local_counter + c.finished_requests.remote_counter

pending-finished :
    (c : RequestContainer) → IsInOrder c → pending c + finished c ≡ c.scheduled_requests
pending-finished c h = omega (arith, h.done, h.counted, h.small)

-- What a call of `next` gives: new requests behind those that were scheduled, none for now, or the
-- end, when all are scheduled and finished.
abbrev pub Answers : RequestContainer → RequestIndex × RequestContainer → Type 0
Answers c (r, c') =
    ((0 < r.count)
      × (r.index ≡ c.scheduled_requests)
      × (c'.scheduled_requests ≡ c.scheduled_requests + r.count))
    ⊎ ((r.count ≡ 0) × (is_finished r ≡ false) × (c'.scheduled_requests ≡ c.scheduled_requests))
    ⊎ ((is_finished r ≡ true)
        × (c.scheduled_requests ≡ c.workload.size)
        × (finished c ≡ c.workload.size)
        × (c'.scheduled_requests ≡ c.scheduled_requests))

refill-same :
    (c : RequestContainer)
    → ((refill c).scheduled_requests ≡ c.scheduled_requests)
      × ((refill c).max_pending_requests ≡ c.max_pending_requests)
      × ((refill c).finished_requests ≡ c.finished_requests)
      × ((refill c).workload.size ≡ c.workload.size)
unfolding refill next_batch
refill-same c = elim (Bool-cases (has_new c.local_buffer)) [
  | inl t ↦ rw t (refl, refl, refl, refl)
  | inr t ↦ elim (Bool-cases (ltb c.workload.current_index c.workload.size)) [
    | inl l ↦ rw (t, l) (refl, refl, refl, refl)
    | inr l ↦ rw (t, l) (refl, refl, refl, refl)
  ]
]

pub next-IsInOrder :
    (c : RequestContainer)
    → IsInOrder c
    → c.workload.current_index < 2 ^ 63
    → IsInOrder (next c).1 × Answers c (next c)
unfolding next
next-IsInOrder c h small =
    let (h', new) = refill-IsInOrder c h small in
    let (scheduled, most, counter, size) = refill-same c in
    let p : pending c + finished c ≡ c.scheduled_requests = pending-finished c h in
    let c' = refill c in
    elim (Bool-cases (leb c.max_pending_requests (pending c))) [
      | inl full ↦ rw full (h, inr (inl (refl, refl, refl)))
      | inr free ↦ elim (Bool-cases (has_new c'.local_buffer)) [
        | inl some_new ↦
            let taken = min (sub64 c.max_pending_requests (pending c)) c'.local_buffer.count in
            let room : (0 < taken)
                × (taken ≤ c'.local_buffer.count)
                × (pending c + taken ≤ c.max_pending_requests) =
              ground (arith, h.bounded) in
            let at : c'.local_buffer.index ≡ c.scheduled_requests = elim (h'.buffered) [
              | inl none_left ↦ absurd (omega (arith, none_left, room.0, room.1))
              | inr e ↦ e ∙ scheduled
            ] in
            let total : c'.finished_requests.local_counter + c'.finished_requests.remote_counter
                ≡ finished c =
              ap (λ (r : ReferenceCounter). r.local_counter + r.remote_counter) counter in
            let sum : c'.scheduled_requests + c'.local_buffer.count ≤ 2 ^ 62 =
              omega (arith, h'.counted, h'.small) in
            let added : add64 c.scheduled_requests taken ≡ c.scheduled_requests + taken =
              omega (arith, sum, scheduled, room.1) in
            let left : sub64 c'.local_buffer.count taken ≡ c'.local_buffer.count - taken =
              omega (arith, sum, room.1) in
            rw (free, some_new)
              (
                record {
                  small = h'.small;
                  counted = omega (arith, h'.counted, added, left, scheduled, room.1);
                  buffered = inr (omega (arith, at, added, sum, scheduled, room.1));
                  done = omega (arith, total, h.done, added);
                  limit = omega (arith, total, added, p, room.2, most);
                  bounded = h'.bounded;
                },
                inl (room.0, at, added),
              )
        | inr none_new ↦ elim (Bool-cases (ltb 0 (pending c))) [
          | inl waits ↦ rw (free, none_new, waits) (h', inr (inl (refl, refl, scheduled)))
          | inr ends ↦
              let all : c.scheduled_requests ≡ c.workload.size = elim new [
                | inl w ↦ absurd (let v : true ≡ false = sym w ∙ none_new in cc)
                | inr w ↦ sym scheduled ∙ w
              ] in
              rw (free, none_new, ends)
                (
                  h',
                  inr (
                      inr (
                        refl,
                        all,
                        omega (arith, all, p, (let w : pending c ≡ 0 = ground arith in w)),
                        scheduled,
                      )),
                )
        ]
      ]
    ]
