-- ===== src/Memory/Reclamation/Complete.antt =====
-- A call of mx/memory/reclamation/epoch_manager.cpp that reclaims ends and loses no resource.
use mxtasking.Prelude.{ℕ, List, [], ◌∷◌, ltb, if◌then◌else◌}
use mathlib.Core.Option
use mxtasking.Util.Queue
use mxtasking.Util.Queue.{Queue, write}
use mxtasking.Util.Queue.Agreement.{Disjoint}
use mxtasking.Util.Queue.Fifo
use mxtasking.Util.Queue.Fifo.{IsQueue, tail_of}
use mxtasking.Util.MpscQueue
use mxtasking.Util.MpscQueue.{MpscQueue}
use mxtasking.Util.MpscQueue.Fifo.{IsMpsc}

-- The resources that were removed before the epoch, and the others.
unfoldable pub expired : (ℕ → ℕ) → ℕ → List ℕ → List ℕ
expired remove_epoch epoch [] = []
expired remove_epoch epoch (x ∷ xs) =
    let rest = expired remove_epoch epoch xs in
    if ltb (remove_epoch x) epoch then x ∷ rest else rest

unfoldable pub survivors : (ℕ → ℕ) → ℕ → List ℕ → List ℕ
survivors remove_epoch epoch [] = []
survivors remove_epoch epoch (x ∷ xs) =
    let rest = survivors remove_epoch epoch xs in
    if ltb (remove_epoch x) epoch then rest else x ∷ rest

-- The two queues of the loop: their items share no address.
record Holds (garbage : MpscQueue) (deferred : Queue) (xs ds : List ℕ) : Type 0 where
  waiting : IsMpsc garbage xs
  kept : IsQueue (record deferred { next = garbage.next }) ds
  apart : Disjoint (garbage.end ∷ xs) ds
