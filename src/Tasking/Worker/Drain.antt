-- ===== src/Tasking/Worker/Drain.antt =====
-- A worker of mx/tasking/worker.cpp executes what its channel holds, in the channel's order.
use mathlib.Core.Path.{subst, ap₂}
use mxtasking.Prelude.{
  ℕ, zero, suc, ◌-◌, ◌<◌, ◌≤◌, ◌≡◌, ◌≢◌, refl, sym, ap, ◌∙◌, List, [], ◌∷◌, arith, ◌==◌, leb, inl,
  inr, false, Bool-cases, length,
}
use mxtasking.Tasking.Task.{TaskInterface}
use mxtasking.Tasking.TaskBuffer.Slots.{NonNull}
use mxtasking.Tasking.Channel
use mxtasking.Tasking.Channel.{Channel}
use mxtasking.Tasking.Channel.Contents.{Contents, IsChannel, next-IsChannel, next-none, next-numa}
use mxtasking.Tasking.Channel.Refill.{schedule, fill-Fetched}
use mxtasking.Tasking.Worker.{Worker, refill, take_task, execute_all, execute_round}

-- The size that the worker keeps is that of the buffer, and the buffer is empty only if nothing
-- waits.
pub record IsReady (w : Worker) (k : Contents) : Type 0 where
  pub valid : IsChannel w.channel k
  pub counted : w.channel_size ≡ length k.buffer
  pub busy : k.buffer ≡ [] → schedule k w.channel.numa_node_id ≡ []

schedule-cons :
    (k : Contents) (x : ℕ) (xs : List ℕ) (numa : ℕ)
    → k.buffer ≡ x ∷ xs
    → schedule k numa ≡ x ∷ schedule (record k { buffer = xs }) numa
schedule-cons k x xs numa e = rw e

module _ (tasks : ℕ → TaskInterface) where
  refill-IsReady :
      (epoch : ℕ) (w : Worker) (k : Contents)
      → IsChannel w.channel k
      → length k.buffer < 64
      → (k' : Contents) × IsReady (refill tasks epoch w) k'
        × (schedule k' w.channel.numa_node_id ≡ schedule k w.channel.numa_node_id)
        × ((refill tasks epoch w).channel.numa_node_id ≡ w.channel.numa_node_id)
  unfolding refill
  refill-IsReady epoch w k v h =
      let f = fill-Fetched tasks w.channel k v h in
      (
        f.after,
        record {
          valid = f.valid;
          counted = f.size;
          busy = λ e. rw (f.numa_kept, f.kept) (f.idle e);
        },
        f.kept,
        f.numa_kept,
      )

  -- Taking a task that the buffer holds.
  record Took (x : ℕ) (xs : List ℕ) (k : Contents) (numa : ℕ) (out : ℕ × Worker) : Type 0 where
    task : out.0 ≡ x
    after : Contents
    ready : IsReady out.1 after
    kept : schedule after numa ≡ schedule (record k { buffer = xs }) numa
    numa_kept : out.1.channel.numa_node_id ≡ numa

  take_task-Took :
      (epoch : ℕ) (w : Worker) (k : Contents) (x : ℕ) (xs : List ℕ)
      → IsReady w k
      → k.buffer ≡ x ∷ xs
      → (x ≢ 0) × Took x xs k w.channel.numa_node_id (take_task tasks epoch w)
  unfolding take_task
  take_task-Took epoch w k x xs r e =
      let live : NonNull (x ∷ xs) = subst NonNull e r.valid.buffered.live in
      let (t, v) = next-IsChannel w.channel k x xs r.valid e in
      let size : w.channel_size ≡ suc (length xs) = r.counted ∙ ap length e in
      let room : suc (length xs) ≤ 64 =
        subst (λ (zs : List ℕ). length zs ≤ 64) e r.valid.buffered.room in
      let some_task : ((Channel.next w.channel).0 == 0) ≡ false = ground (arith, live.0) in
      (
        live.0,
        elim (Bool-cases (leb (w.channel_size - 1) w.prefetch_distance)) [
          | inl b ↦
              rw (some_task, b)
                (let w' : Worker = record w {
                  channel = (Channel.next w.channel).1;
                  channel_size = w.channel_size - 1;
                } in
                  let (k', ready, kept, numa) =
                    refill-IsReady epoch w' (record k { buffer = xs }) v (omega arith) in
                  record {
                    task = t;
                    after = k';
                    ready = ready;
                    kept =
                        subst (λ m. schedule k' m ≡ schedule (record k { buffer = xs }) m)
                          (next-numa w.channel) kept;
                    numa_kept = numa ∙ next-numa w.channel;
                  })
          | inr b ↦
              rw (some_task, b)
                (record {
                  task = t;
                  after = record k { buffer = xs };
                  ready = record {
                    valid = v;
                    counted = omega (arith, size);
                    busy = λ n. absurd (ground (arith, ap length n));
                  };
                  kept = refl;
                  numa_kept = next-numa w.channel;
                })
        ],
      )

  take_task-none :
      (epoch : ℕ) (w : Worker) (k : Contents)
      → IsReady w k
      → k.buffer ≡ []
      → (take_task tasks epoch w).0 ≡ 0
  unfolding take_task
  take_task-none epoch w k r e = rw (next-none w.channel k r.valid e)

  execute_all-schedule :
      (fuel : ℕ) (epochs : ℕ → ℕ) (w : Worker) (k : Contents) (xs : List ℕ)
      → k.buffer ≡ xs
      → IsReady w k
      → length (schedule k w.channel.numa_node_id) < fuel
      → execute_all tasks fuel epochs w ≡ schedule k w.channel.numa_node_id
  unfolding execute_all
  execute_all-schedule zero epochs w k xs e r h = absurd (omega arith)
  execute_all-schedule (suc fuel) epochs w k [] e r h =
      rw (take_task-none (epochs fuel) w k r e) (sym (r.busy e))
  execute_all-schedule (suc fuel) epochs w k (x ∷ xs) e r h =
      let (z, t) = take_task-Took (epochs fuel) w k x xs r e in
      let some_task : ((take_task tasks (epochs fuel) w).0 == 0) ≡ false =
        ground (arith, t.task, z) in
      let first = schedule-cons k x xs w.channel.numa_node_id e in
      let w' : Worker = (take_task tasks (epochs fuel) w).1 in
      let same_rest : schedule t.after w'.channel.numa_node_id
          ≡ schedule (record k { buffer = xs }) w.channel.numa_node_id =
        ap (schedule t.after) t.numa_kept ∙ t.kept in
      rw (some_task, first)
        (ap₂ ◌∷◌ t.task (
          execute_all-schedule fuel epochs w' t.after t.after.buffer refl t.ready
            (omega (arith, ap length first, ap length same_rest))
          ∙ same_rest))

  -- A round of a worker whose buffer is not full executes every task of its channel exactly once,
  -- in the order of the channel's schedule: the buffer, then the waiting tasks of normal priority,
  -- then those of low priority. The fuel is one more than their number, nothing is scheduled
  -- meanwhile, and the epochs that are read may be any.
  pub execute_round-schedule :
      (fuel : ℕ) (epochs : ℕ → ℕ) (w : Worker) (k : Contents)
      → IsChannel w.channel k
      → length k.buffer < 64
      → length (schedule k w.channel.numa_node_id) < fuel
      → execute_round tasks fuel epochs w ≡ schedule k w.channel.numa_node_id
  unfolding execute_round
  execute_round-schedule fuel epochs w k v room h =
      let (k', ready, kept, numa) = refill-IsReady (epochs fuel) w k v room in
      let w' : Worker = refill tasks (epochs fuel) w in
      let same_all : schedule k' w'.channel.numa_node_id ≡ schedule k w.channel.numa_node_id =
        ap (schedule k') numa ∙ kept in
      execute_all-schedule fuel epochs w' k' k'.buffer refl ready
        (omega (arith, ap length same_all))
      ∙ same_all
