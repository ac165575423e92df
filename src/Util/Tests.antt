-- ===== src/Util/Tests.antt =====
-- Runs of the queues of mx/util, at which the theorems on them are applied.
use mxtasking.Prelude.{true, false, ◌≡◌, refl, List, [], ◌∷◌, some, arith}
use mxtasking.Util.Queue.{Queue, null}
use mxtasking.Util.Queue.Fifo.{run, run_list, run_refines, IsQueue, Op, push, pop}
use mxtasking.Util.BoundQueue
use mxtasking.Util.BoundQueue.Runs.{bounded_run, bound_run_refines}
use mxtasking.Util.MpscQueue
use mxtasking.Util.MpscQueue.{MpscQueue}
use mxtasking.Util.MpscQueue.Fifo.{IsMpsc, create-IsMpsc, mpsc_run_refines}
use mxtasking.Util.MpscQueue.Fifo

abbrev empty_queue : Queue
empty_queue = record { head = null; tail = null; next = λ _. null }

empty_queue-IsQueue : IsQueue empty_queue []
empty_queue-IsQueue = record { chain = refl; ends = refl; nodup = tt }

-- The last item is pushed again after it was popped.
abbrev calls : List Op
calls = push 3 ∷ push 5 ∷ pop ∷ pop ∷ pop ∷ push 5 ∷ pop ∷ []

run_refines_example : run empty_queue calls ≡ 3 ∷ 5 ∷ null ∷ 5 ∷ []
unfolding run_list
run_refines_example =
    run_refines calls empty_queue [] empty_queue-IsQueue
      (omega arith, tt, (omega arith, (omega arith, tt), (omega arith, tt, tt)))

abbrev stub_only : MpscQueue
stub_only = MpscQueue.create 9 (λ _. null)

mpsc_run_refines_example : Fifo.run stub_only calls ≡ 3 ∷ 5 ∷ null ∷ 5 ∷ []
unfolding run_list MpscQueue.create
mpsc_run_refines_example =
    mpsc_run_refines calls stub_only [] (create-IsMpsc 9 (λ _. null) (omega arith))
      (omega arith, tt, (omega arith, (omega arith, tt), (omega arith, tt, tt)))
      (omega arith, (omega arith, (omega arith, tt)))

-- Some exchanges fail spuriously. The third item finds no slot; the last call finds no item.
abbrev bounded_calls : List BoundQueue.Op
bounded_calls =
    BoundQueue.tries (true ∷ false ∷ []) 5
    ∷ BoundQueue.tries (false ∷ []) 6
    ∷ BoundQueue.tries (false ∷ []) 7
    ∷ BoundQueue.pops (true ∷ true ∷ false ∷ []) 0
    ∷ BoundQueue.pops (false ∷ []) 0
    ∷ BoundQueue.pops (false ∷ []) 9
    ∷ []

bound_run_refines_example :
    BoundQueue.run (BoundQueue.create 2) bounded_calls ≡ some (bounded_run 2 [] bounded_calls)
bound_run_refines_example =
    bound_run_refines 2 bounded_calls (omega arith) (omega arith)
      (tt, (tt, (tt, (tt, (tt, (tt, tt)))))) (omega arith)

bounded_calls_run : bounded_run 2 [] bounded_calls ≡ 1 ∷ 1 ∷ 0 ∷ 5 ∷ 6 ∷ 9 ∷ []
unfolding bounded_run
bounded_calls_run = refl
