-- ===== src/Tasking/Execute.antt =====
-- mx/tasking/worker.cpp and task_stack.h: the execution of one task by a worker, with the optimistic
-- read that runs again when the version of the resource has changed, and what the worker does with
-- the result. `body` is what a task's memory holds, and `run` is the task's `execute`: from what it
-- reads of the resource and its own memory to its result and its memory after it. What other threads
-- do to the resource shows in what the attempts read, one after the other.
pub mod Retry
use mxtasking.Prelude.{
  ℕ, zero, suc, ◌+◌, Bool, true, false, List, [], ◌∷◌, ◌++◌, Option, none, some, if◌then◌else◌,
}
use mxtasking.Tasking.Task.{TaskResult, has_successor}
use mxtasking.Tasking.Isolation.{
  Execution, plain, latched, shared_latch, unique_latch, optimistic_read, single_writer,
  many_writers,
}

-- The memory for one task.
pub record TaskStack {ℓ} (Body : Type ℓ) : Type ℓ where
  pub data_ : Body

-- `save` and `restore`, whatever the size of a task and the way it is copied.
abbrev pub save {ℓ} : {Body : Type ℓ} → TaskStack Body → Body → TaskStack Body
save s body = record s { data_ = body }

abbrev pub restore {ℓ} : {Body : Type ℓ} → TaskStack Body → Body → Body
restore s body = s.data_

-- One attempt to read: the contents of the resource that the task finds, and whether the version at
-- the end is that of the beginning.
pub record Attempt {ℓ} (Contents : Type ℓ) : Type ℓ where
  pub contents : Contents
  pub is_version_valid : Bool

-- What the worker does behind the execution: it spawns the successor, and deletes the task.
pub data Action : Type 0 where
  spawn : ℕ → ℕ → Action
  delete_task : ℕ → ℕ → Action

module _ {ℓ} (Contents Body : Type ℓ) (run : Contents → Body → TaskResult × Body) where
  -- The loop of `execute_optimistic_read`, from the attempt `i` on, for `fuel` attempts at most.
  unfoldable pub read_loop :
      ℕ → (ℕ → Attempt Contents) → ℕ → TaskStack Body → Body → Option (TaskResult × Body)
  read_loop zero attempts i stack body = none
  read_loop (suc fuel) attempts i stack body =
      let (result, body') = run (attempts i).contents body in
      let rest = read_loop fuel attempts (i + 1) stack (restore stack body') in
      if (attempts i).is_version_valid then some (result, body') else rest

  unfoldable pub execute_optimistic_read :
      ℕ → (ℕ → Attempt Contents) → TaskStack Body → Body → Option (TaskResult × Body)
  unfolding read_loop
  execute_optimistic_read fuel attempts stack body =
      read_loop fuel attempts 0 (save stack body) body

  -- The branches of the switch: under a latch, or alone on the channel, the task runs once.
  unfoldable pub execute :
      ℕ → Execution → (ℕ → Attempt Contents) → TaskStack Body → Body → Option (TaskResult × Body)
  unfolding execute_optimistic_read
  execute fuel optimistic_read attempts stack body =
      execute_optimistic_read fuel attempts stack body
  execute fuel plain attempts stack body = some (run (attempts 0).contents body)
  execute fuel latched attempts stack body = some (run (attempts 0).contents body)
  execute fuel shared_latch attempts stack body = some (run (attempts 0).contents body)
  execute fuel unique_latch attempts stack body = some (run (attempts 0).contents body)
  execute fuel single_writer attempts stack body = some (run (attempts 0).contents body)
  execute fuel many_writers attempts stack body = some (run (attempts 0).contents body)

-- The end of the inner loop.
unfoldable pub finish : ℕ → ℕ → ℕ → TaskResult → List Action
finish core_id channel_id task result =
    (if has_successor result then spawn result.successor_task channel_id ∷ [] else [])
    ++ (if result.remove_task then delete_task core_id task ∷ [] else [])
