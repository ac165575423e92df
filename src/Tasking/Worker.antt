-- ===== src/Tasking/Worker.antt =====
-- mx/tasking/worker.h and worker.cpp: how a worker takes tasks from its channel and refills the
-- buffer, with the local epoch that it publishes. `tasks` is the table of the tasks' fields, and
-- `epochs` the values that its reads of the global epoch find. Which latch a task is executed
-- under is in Isolation; what a task does when it is executed is the application's.
pub mod Drain
use mxtasking.Prelude.{ℕ, zero, suc, ◌-◌, List, [], ◌∷◌, ◌==◌, leb, if◌then◌else◌}
use mxtasking.Tasking.Task.{TaskInterface}
use mxtasking.Tasking.Channel
use mxtasking.Tasking.Channel.{Channel}

pub record Worker : Type 0 where
  pub channel : Channel
  pub channel_size : ℕ
  pub prefetch_distance : ℕ
  pub local_epoch : ℕ

module _ (tasks : ℕ → TaskInterface) where
  -- Enter the epoch and fill the buffer.
  pub refill : ℕ → Worker → Worker
  refill epoch w =
      let (size, c) = Channel.fill tasks w.channel in
      record w { channel = c; channel_size = size; local_epoch = epoch }

  -- The head of the inner loop: the next task, null at the loop's end, and the refill when the
  -- buffer has fallen to the prefetch distance. `--_channel_size` runs only after a task was
  -- taken, so the size is above zero.
  pub take_task : ℕ → Worker → ℕ × Worker
  unfolding refill
  take_task epoch w =
      let (task, c) = Channel.next w.channel in
      let w' = record w { channel = c; channel_size = w.channel_size - 1 } in
      if task == 0
      then (0, record w { channel = c })
      else (if leb (w.channel_size - 1) w.prefetch_distance
          then (task, refill epoch w')
          else (task, w'))

  -- The inner loop, with `fuel` tasks at most: the tasks that are executed, in order. Nothing is
  -- scheduled meanwhile.
  pub execute_all : ℕ → (ℕ → ℕ) → Worker → List ℕ
  execute_all zero epochs w = []
  execute_all (suc fuel) epochs w =
      let (task, w') = take_task (epochs fuel) w in
      let rest = execute_all fuel epochs w' in if task == 0 then [] else (task ∷ rest)

  -- A round of the outer loop.
  pub execute_round : ℕ → (ℕ → ℕ) → Worker → List ℕ
  execute_round fuel epochs w = execute_all fuel epochs (refill (epochs fuel) w)
