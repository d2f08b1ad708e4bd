-- ===== src/Queue/Agree.antt =====
-- main/lock-queue.c, main/ms-queue.c: the two implementations of incl/queue.h under the same calls.
use coremu.Common.{ℕ, ◌+◌, ◌^◌, ◌<◌, ◌≡◌, ap, some, List, length}
use coremu.Queue.Workload.{Call, fifo, run_calls, IsServed, results, run_calls-fifo}
use coremu.LockQueue.Impl.{lock_queue}
use coremu.MsQueue.Impl.{ms_queue}

-- The queue of main/lock-queue.c and the one of main/ms-queue.c, with the same values in them, served by
-- their allocators, and with no more values and calls than 2^63 - 1: any sequence of calls to enqueue and
-- dequeue, none of which another thread interrupts, returns on both, and the results of both are those
-- of a first-in first-out list.
pub queues-agree :
    (calls : List Call) (xs : List ℕ) (q : lock_queue.Queue) (r : ms_queue.Queue)
    → lock_queue.Holds q xs
    → ms_queue.Holds r xs
    → IsServed lock_queue calls q
    → IsServed ms_queue calls r
    → length xs + length calls < 2 ^ 63
    → (results (run_calls lock_queue calls q) ≡ some (fifo calls xs).0)
      × (results (run_calls ms_queue calls r) ≡ some (fifo calls xs).0)
queues-agree calls xs q r hq hr okq okr small =
    let (q', runs, h) = run_calls-fifo lock_queue calls q xs hq okq small in
    let (r', runs', h') = run_calls-fifo ms_queue calls r xs hr okr small in
    (ap results runs, ap results runs')
