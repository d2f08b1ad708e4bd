-- ===== src/Intr/Tests.antt =====
-- The theorems of main/intr.c at two cores with queues of the default build; the emulator's state is
-- the list of what its callbacks saw, the latest first.
use coremu.Common.{
  ℕ, get_elem?, length, ◌^◌, ◌<◌, zero, suc, subst, some_inj, Option, ◌+◌, ◌≡◌, refl, true, none,
  some, List, [], ◌∷◌, arith,
}
use coremu.Common.Int.{pos, negsuc}
use coremu.Types.{Core, CoreState}
use coremu.Sched.{coremu_physical_core_enough_p}
use coremu.LockQueue.{Node, Queue, queue_get_size, enqueue, set_next, set_value}
use coremu.Malloc.{coremu_mallocz}
use coremu.SpinLock.{testandset, coremu_spin_lock}
use coremu.LockQueue.Fifo.{IsQueue}
use coremu.LockQueue.Impl.{lock_queue}
use coremu.LockQueue.Tests.{empty, single, empty-IsQueue, single-IsQueue}
use coremu.Memory.{Store, load, store}
use coremu.System.{Thread, System, coremu_get_core_self, coremu_hw_thr_p, find_thread, set_core}
use coremu.Intr.{
  coremu_put_intr, wake, coremu_send_signal, signalled, coremu_intr_get_size, raise,
  coremu_send_intr, coremu_receive_intr,
}
use coremu.Intr.Drain.{handle_all, receive_intr-drains}
use coremu.Intr.EndToEnd.{Pending, Sends, start, send, sends-handled}
use coremu.Intr.Delivery.{hardware}

abbrev core_of : ℕ → Store Node Queue → Core (Store Node Queue)
core_of n q = record {
  serial = n;
  thread = 100 + n;
  tid = 200 + n;
  intr_queue = q;
  time_stamp = 1;
  intr_thresh_hold = pos 6;
  sig_pending = 0;
  opaque = 0;
  state = CoreState.run;
}

abbrev machine : System lock_queue (List ℕ)
machine = record {
  sched = record {
    host_cpu_avail = 1;
    max_prio = negsuc 20;
    min_prio = pos 19;
    avg_prio = negsuc 0;
    low_prio = pos 9;
    high_prio = negsuc 10;
  };
  cm_smp_cpus = 2;
  cm_cores = core_of 0 empty ∷ core_of 1 single ∷ [];
  init_done = true;
  hw_thrid = 77;
  ioreq_exit = 0;
  event_handler = some (λ e seen. e ∷ seen);
  event_notifier = none;
  guest = [];
  effects = [];
}

abbrev hw_thread : Thread
hw_thread = record { self = 77; cm_core_self = none }

abbrev core_thread : Thread
core_thread = record { self = 101; cm_core_self = none }

receive_intr-drains_example :
    (q : Store Node Queue) × (coremu_receive_intr lock_queue (List ℕ) 5 core_thread machine
      ≡ some (
        record core_thread { cm_core_self = some 1 },
        record (set_core lock_queue
            (List ℕ)
            1
            (record (core_of 1 single) { intr_queue = q })
            machine) { guest = handle_all (λ e seen. e ∷ seen) (5 ∷ []) [] },
      ))
    × lock_queue.Holds q []
unfolding coremu_get_core_self find_thread
receive_intr-drains_example =
    receive_intr-drains lock_queue (List ℕ) 5 core_thread
      (record core_thread { cm_core_self = some 1 }) machine 1 (core_of 1 single)
      (λ e seen. e ∷ seen) (5 ∷ []) refl refl refl ((16, 0), (32, 5) ∷ [], single-IsQueue, refl)
      (refl, tt) (omega arith) (omega arith)

-- The hardware thread sends 6 to core 1, which has 5 pending.
abbrev before : ℕ → List ℕ
before (suc zero) = 5 ∷ []
before j = []

machine-Pending : Pending lock_queue (List ℕ) before machine
machine-Pending zero core at = (
  (16, 0),
  [],
  subst (λ (c : Core (Store Node Queue)). IsQueue c.intr_queue (16, 0) []) (some_inj at)
      empty-IsQueue,
  refl,
)
machine-Pending (suc zero) core at = (
  (16, 0),
  (32, 5) ∷ [],
  subst (λ (c : Core (Store Node Queue)). IsQueue c.intr_queue (16, 0) ((32, 5) ∷ [])) (some_inj at)
      single-IsQueue,
  refl,
)
machine-Pending (suc (suc j)) core at = cc

small : (k : ℕ) → length (before k) + 1 < 2 ^ 63
small zero = omega arith
small (suc zero) = omega arith
small (suc (suc k)) = omega arith

system : Option (Thread × System lock_queue (List ℕ)) → System lock_queue (List ℕ)
system none = machine
system (some (th, s)) = s

abbrev sent : System lock_queue (List ℕ)
sent = system (coremu_send_intr lock_queue (List ℕ) 48 6 1 hw_thread machine)

-- Core 1 of it.
found : Option (Core (Store Node Queue)) → Core (Store Node Queue)
found none = core_of 1 single
found (some core) = core

abbrev sent_core : Core (Store Node Queue)
sent_core = found (get_elem? sent.cm_cores 1)

sent-Sends : Sends lock_queue (List ℕ) machine ((1, 6) ∷ []) sent
unfolding system found coremu_send_intr coremu_hw_thr_p coremu_put_intr wake coremu_send_signal
    signalled coremu_intr_get_size raise queue_get_size coremu_physical_core_enough_p enqueue
    set_next set_value load store coremu_mallocz coremu_spin_lock testandset
sent-Sends =
    send {log = []} 48 6 1 hw_thread hw_thread (core_of 1 single) start (omega arith) refl refl
      (omega arith, refl) (hardware refl) refl

sends-handled_example :
    (q : Store Node Queue) × (coremu_receive_intr lock_queue (List ℕ) 5 core_thread sent
      ≡ some (
        record core_thread { cm_core_self = some 1 },
        record (set_core lock_queue (List ℕ) 1 (record sent_core { intr_queue = q }) sent) {
          guest = handle_all (λ e seen. e ∷ seen) (5 ∷ 6 ∷ []) sent.guest;
        },
      ))
    × lock_queue.Holds q []
unfolding system found coremu_send_intr coremu_hw_thr_p coremu_put_intr wake coremu_send_signal
    signalled coremu_intr_get_size raise queue_get_size coremu_physical_core_enough_p enqueue
    set_next set_value load store coremu_mallocz coremu_spin_lock testandset coremu_get_core_self
    find_thread
sends-handled_example =
    sends-handled lock_queue (List ℕ) before 5 core_thread
      (record core_thread { cm_core_self = some 1 }) 1 sent_core (λ e seen. e ∷ seen)
      machine-Pending sent-Sends small (refl, tt) refl refl refl (omega arith)
