-- ===== src/Benchmark/Requests.antt =====
-- application/blinktree_benchmark/request_scheduler.h: the container that hands out the requests of
-- a workload in batches, with the counter of mx/util/reference_counter.h and the position of
-- benchmark/workload.cpp. All numbers have 64 bits.
pub mod Pending
pub mod Runs
use mxtasking.Prelude.{
  ℕ, zero, suc, ◌+◌, ◌-◌, ◌%◌, ◌^◌, ◌≡◌, min, Bool, true, false, not, ◌==◌, ltb, leb, if◌then◌else◌,
  add64, sub64,
}

-- reference_counter_64.
pub record ReferenceCounter : Type 0 where
  pub local_core_id : ℕ
  pub local_counter : ℕ
  pub remote_counter : ℕ

abbrev pub is_local : ReferenceCounter → ℕ → Bool
is_local c core_id = c.local_core_id == core_id

unfoldable pub add : ReferenceCounter → ℕ → ℕ → ReferenceCounter
add c core_id count =
    if is_local c core_id
    then record c { local_counter = add64 c.local_counter count }
    else record c { remote_counter = add64 c.remote_counter count }

unfoldable pub sub : ReferenceCounter → ℕ → ℕ → ReferenceCounter
sub c core_id count =
    if is_local c core_id
    then record c { local_counter = sub64 c.local_counter count }
    else record c { remote_counter = sub64 c.remote_counter count }

abbrev pub load : ReferenceCounter → ℕ
load c = add64 c.local_counter c.remote_counter

pub record RequestIndex : Type 0 where
  pub index : ℕ
  pub count : ℕ

abbrev pub make_finished : RequestIndex
make_finished = record { index = 2 ^ 64 - 1; count = 0 }

abbrev pub make_no_new : RequestIndex
make_no_new = record { index = 0; count = 0 }

abbrev pub is_finished : RequestIndex → Bool
is_finished r = r.index == 2 ^ 64 - 1

abbrev pub has_new : RequestIndex → Bool
has_new r = ltb 0 r.count

-- `operator-=`
abbrev pub drop_first : RequestIndex → ℕ → RequestIndex
drop_first r count = record { index = add64 r.index count; count = sub64 r.count count }

-- The workload of the current phase: its size and the next index.
pub record Workload : Type 0 where
  pub size : ℕ
  pub current_index : ℕ

-- `Workload::next`
unfoldable pub next_batch : Workload → ℕ → RequestIndex × Workload
next_batch w count =
    let index = w.current_index in
    let taken = record w { current_index = add64 index count } in
    if ltb index w.size
    then (record { index = index; count = min count (sub64 w.size index) }, taken)
    else (record { index = 2 ^ 64 - 1; count = 0 }, taken)

-- config::batch_size()
abbrev pub batch_size : ℕ
batch_size = 500

pub record RequestContainer : Type 0 where
  pub finished_requests : ReferenceCounter
  pub scheduled_requests : ℕ
  pub local_buffer : RequestIndex
  pub max_pending_requests : ℕ
  pub workload : Workload

unfoldable pub create : ℕ → ℕ → Workload → RequestContainer
create core_id max_open_requests w =
    let (first, w') = next_batch w batch_size in
    record {
      finished_requests = record { local_core_id = core_id; local_counter = 0; remote_counter = 0 };
      scheduled_requests = 0;
      local_buffer = first;
      max_pending_requests = max_open_requests;
      workload = w';
    }

-- The test of the local buffer in `next`, which takes a new batch when it is empty.
unfoldable pub refill : RequestContainer → RequestContainer
unfolding next_batch
refill c =
    let (batch, w) = next_batch c.workload batch_size in
    if has_new c.local_buffer then c else record c { local_buffer = batch; workload = w }

-- The pending requests, when `next` begins.
abbrev pub pending : RequestContainer → ℕ
pending c = sub64 c.scheduled_requests (load c.finished_requests)

unfoldable pub next : RequestContainer → RequestIndex × RequestContainer
unfolding refill
next c =
    let pending_requests = pending c in
    let c' = refill c in
    let free_requests = sub64 c.max_pending_requests pending_requests in
    let count = min free_requests c'.local_buffer.count in
    if leb c.max_pending_requests pending_requests
    then (make_no_new, c)
    else if has_new c'.local_buffer
    then (
      record { index = c'.local_buffer.index; count = count },
      record c' {
        scheduled_requests = add64 c.scheduled_requests count;
        local_buffer = drop_first c'.local_buffer count;
      },
    )
    else ((if ltb 0 pending_requests then make_no_new else make_finished), c')

-- `task_finished`, which `inserted`, `updated`, `removed`, `found` and `missing` call.
unfoldable pub task_finished : RequestContainer → ℕ → RequestContainer
unfolding add
task_finished c core_id = record c { finished_requests = add c.finished_requests core_id 1 }
