-- ===== src/Queue/Tests.antt =====
-- The same calls to the two queues.
use coremu.Common.{◌≡◌, refl, none, some, [], ◌∷◌, arith}
use coremu.Queue.Workload.{put, take, run_calls, results}
use coremu.Queue.Agree.{queues-agree}
use coremu.MsQueue.Impl.{ms_queue}
use coremu.LockQueue.Impl.{lock_queue}
use coremu.LockQueue.Tests as LockTests
use coremu.MsQueue.Tests as MsTests

queues-agree_example :
    (results (run_calls lock_queue (put 48 6 ∷ take ∷ take ∷ take ∷ []) LockTests.single)
      ≡ some (some 5 ∷ some 6 ∷ none ∷ []))
    × (results (run_calls ms_queue (put 48 6 ∷ take ∷ take ∷ take ∷ []) MsTests.single)
        ≡ some (some 5 ∷ some 6 ∷ none ∷ []))
queues-agree_example =
    queues-agree (put 48 6 ∷ take ∷ take ∷ take ∷ []) (5 ∷ []) LockTests.single MsTests.single
      ((16, 0), (32, 5) ∷ [], LockTests.single-IsQueue, refl)
      ((16, 0), (32, 5) ∷ [], MsTests.single-IsQueue, refl)
      ((omega arith, refl), λ q e x r f y t g z u h. tt)
      ((omega arith, refl, refl), λ q e x r f y t g z u h. tt) (omega arith)
