-- ===== src/Lifecycle/Tests.antt =====
-- Two cores with queues of the default build, started by the thread 77.
use coremu.Common.{ℕ, ◌+◌, ◌<◌, ◌≡◌, refl, Bool, true, false, none, some, List, [], ◌∷◌, arith, ltb}
use coremu.Common.Int.{pos}
use coremu.LockQueue.Impl.{lock_queue}
use coremu.LockQueue.Tests.{empty}
use coremu.System.{Thread, System}
use coremu.Lifecycle.{cleared, coremu_init_done_p}
use coremu.Lifecycle.Boot.{boot, IsStarted, boot-IsStarted}

abbrev before_init : System lock_queue (List ℕ)
before_init = record {
  sched = record {
    host_cpu_avail = 0;
    max_prio = pos 0;
    min_prio = pos 0;
    avg_prio = pos 0;
    low_prio = pos 0;
    high_prio = pos 0;
  };
  cm_smp_cpus = 0;
  cm_cores = [];
  init_done = false;
  hw_thrid = 0;
  ioreq_exit = 0;
  event_handler = none;
  event_notifier = none;
  guest = [];
  effects = [];
}

abbrev main_thread : Thread
main_thread = record { self = 77; cm_core_self = none }

abbrev thread_of : ℕ → ℕ
thread_of i = 100 + i

boot-IsStarted_example :
    (s' : System lock_queue (List ℕ)) × (boot lock_queue
        (List ℕ)
        empty
        2
        16
        2
        main_thread
        (λ i. 32 + i)
        (λ i. i)
        (λ i. some (thread_of i))
        before_init
      ≡ some s')
    × (coremu_init_done_p lock_queue (List ℕ) s' ≡ true)
    × ((i : ℕ) → i < 2 → IsStarted lock_queue (List ℕ) i i (thread_of i) s')
boot-IsStarted_example =
    boot-IsStarted lock_queue (List ℕ) empty 2 16 2 main_thread (λ i. 32 + i) (λ i. i)
      (λ i. some (thread_of i)) thread_of before_init (omega arith) (λ j lt. omega arith)
      (λ j lt. refl) (λ a b la lb e. omega (arith, e)) (λ j lt e. omega (arith, e))

abbrev one_core : System lock_queue (List ℕ)
one_core = record before_init { cm_smp_cpus = 1; cm_cores = cleared lock_queue (List ℕ) empty ∷ [] }

abbrev later_on : ℕ → Bool
later_on k = ltb 1 k
