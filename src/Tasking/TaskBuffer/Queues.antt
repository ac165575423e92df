-- ===== src/Tasking/TaskBuffer/Queues.antt =====
-- The two queues of mx/util as the queue that mx/tasking/task_buffer.h fills from.
use mxtasking.Util.Queue
use mxtasking.Util.Queue.{Queue, null}
use mxtasking.Util.Queue.Fifo.{IsQueue, pop_front-empty, pop_front-IsQueue, empty_nil, empty_cons}
use mxtasking.Util.MpscQueue
use mxtasking.Util.MpscQueue.{MpscQueue}
use mxtasking.Util.MpscQueue.Fifo.{IsMpsc, pop_front-nil, pop_front-cons}
use mxtasking.Util.MpscQueue.Fifo
use mxtasking.Tasking.TaskBuffer.{TaskSource}
use mxtasking.Tasking.TaskBuffer.Fill.{SourceLaws}

abbrev pub queue_source : TaskSource
queue_source = record { Q = Queue; is_empty = Queue.empty; pop_front = Queue.pop_front }

abbrev pub mpsc_source : TaskSource
mpsc_source = record { Q = MpscQueue; is_empty = MpscQueue.empty; pop_front = MpscQueue.pop_front }

abbrev pub queue_laws : SourceLaws queue_source
queue_laws = record {
  Holds = IsQueue;
  pop_nil = pop_front-empty;
  pop_cons =
      λ q x xs v. ((pop_front-IsQueue q x xs v).0, v.chain.1, (pop_front-IsQueue q x xs v).1);
  empty_nil = empty_nil;
  empty_cons = empty_cons;
}

abbrev pub mpsc_laws : SourceLaws mpsc_source
mpsc_laws = record {
  Holds = IsMpsc;
  pop_nil = pop_front-nil;
  pop_cons = pop_front-cons;
  empty_nil = Fifo.empty_nil;
  empty_cons = Fifo.empty_cons;
}
