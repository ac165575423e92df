-- ===== src/Tasking/Execute/Retry.antt =====
-- Attempts of an optimistic read of mx/tasking/worker.cpp that fail leave no trace in the task.
use mxtasking.Prelude.{ℕ, zero, suc, ◌+◌, ◌<◌, ◌≡◌, ap, ◌∙◌, true, false, some, arith}
use mxtasking.Tasking.Task.{TaskResult}
use mxtasking.Tasking.Execute.{TaskStack, save, Attempt, read_loop, execute_optimistic_read}

module _ {ℓ} (Contents Body : Type ℓ) (run : Contents → Body → TaskResult × Body)
    (attempts : ℕ → Attempt Contents) (stack : TaskStack Body) (body : Body) where
  read_loop-first :
      (fuel failed i : ℕ)
      → failed < fuel
      → ((j : ℕ) → j < failed → (attempts (i + j)).is_version_valid ≡ false)
      → (attempts (i + failed)).is_version_valid ≡ true
      → read_loop Contents Body run fuel attempts i (save stack body) body
        ≡ some (run (attempts (i + failed)).contents body)
  unfolding read_loop
  read_loop-first zero failed i l f v = absurd (omega arith)
  read_loop-first (suc fuel) zero i l f v =
      let here : i + 0 ≡ i = omega arith in
      let now : (attempts i).is_version_valid ≡ true = rw here at v in rw (now, here)
  read_loop-first (suc fuel) (suc failed) i l f v =
      let here : (attempts i).is_version_valid ≡ false =
        ap (λ (j : ℕ). (attempts j).is_version_valid) (omega arith) ∙ f 0 (omega arith) in
      let next : i + 1 + failed ≡ i + suc failed = omega arith in
      rw here (
        read_loop-first fuel failed (i + 1) (omega arith)
          (λ j q.
            ap (λ (k : ℕ). (attempts k).is_version_valid) (omega arith) ∙ f (suc j) (omega arith))
          (ap (λ (k : ℕ). (attempts k).is_version_valid) next ∙ v)
        ∙ ap (λ (k : ℕ). some (run (attempts k).contents body)) next)

  -- The result is that of the first attempt whose version is valid, from the memory that the task
  -- had before the first attempt.
  pub execute_optimistic_read-first :
      (failed : ℕ)
      → ((j : ℕ) → j < failed → (attempts j).is_version_valid ≡ false)
      → (attempts failed).is_version_valid ≡ true
      → execute_optimistic_read Contents Body run (failed + 1) attempts stack body
        ≡ some (run (attempts failed).contents body)
  unfolding execute_optimistic_read
  execute_optimistic_read-first failed f v =
      let same : 0 + failed ≡ failed = omega arith in
      read_loop-first (failed + 1) failed 0 (omega arith)
        (λ j q. ap (λ (k : ℕ). (attempts k).is_version_valid) (omega arith) ∙ f j q)
        (ap (λ (k : ℕ). (attempts k).is_version_valid) same ∙ v)
      ∙ ap (λ (k : ℕ). some (run (attempts k).contents body)) same
