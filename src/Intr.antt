-- ===== src/Intr.antt =====
-- main/intr.c: interrupts between cores, over the queue of incl/queue.h, with the adaptive signals
-- that wake a core up.
pub mod Delivery
pub mod Drain
pub mod EndToEnd
mod Tests
use coremu.Common.{
  ℕ, zero, suc, ◌+◌, ◌-◌, ◌*◌, ◌/◌, ◌%◌, ◌^◌, Bool, true, false, ◌||◌, Option, none, some, ◌∷◌, ltb,
  ◌==◌, set, if◌then◌else◌,
}
use coremu.Common.Int.{ℤ, pos, ◌+ℤ◌, ◌-ℤ◌, ◌*ℤ◌, ltb_ℤ}
use coremu.Types.{Core, CoreState, is_halt, is_pause, set_priority, kill}
use coremu.Sched.{coremu_get_thrs_per_core, coremu_physical_core_enough_p}
use coremu.Queue.{QueueImpl}
use coremu.System.{
  ◌>>=◌, Thread, Cpu, System, coremu_get_core, set_core, coremu_hw_thr_p, coremu_get_core_self,
}

abbrev pub max_intr_threshold : ℤ
max_intr_threshold = pos 50

-- `COREMU_SIGNAL`, SIGRTMIN + 3.
abbrev pub coremu_signal : ℕ
coremu_signal = 37

-- `SIG_HANDLE_INTERVAL`; `none` is a division by zero.
unfoldable pub sig_handle_interval : ℕ → ℕ → Option ℕ
sig_handle_interval host smp_cpus = do
  t ← coremu_get_thrs_per_core host smp_cpus
  some (2500000 * (t / 8))

-- The tests and updates of `coremu_send_signal` on the core, with `send_sig_p`.
unfoldable pub raise : {Q : Type 0} → ℤ → Core Q → Core Q × Bool
raise pending_intr core =
    if ltb_ℤ core.intr_thresh_hold pending_intr
    then (if core.sig_pending == 0
        then (record core { sig_pending = 1; state = CoreState.run }, true)
        else if ltb_ℤ core.intr_thresh_hold max_intr_threshold
        then (record core { intr_thresh_hold = (core.intr_thresh_hold +ℤ pos 1) *ℤ pos 2 }, false)
        else (core, false))
    else (core, false)

-- `adjust_intr_threshold` on the thread's core; `tsc` is the time stamp counter.
unfoldable pub adjust_intr_threshold : {Q : Type 0} → ℕ → ℕ → ℕ → Core Q → Option (Core Q)
adjust_intr_threshold host smp_cpus tsc self =
    if self.time_stamp == 0 then some (record self { time_stamp = tsc }) else do
      interval ← sig_handle_interval host smp_cpus
      some (record self {
        intr_thresh_hold =
            if ltb interval ((tsc + 2 ^ 64 - self.time_stamp) % 2 ^ 64)
            then pos 0
            else if ltb_ℤ (pos 0) self.intr_thresh_hold
            then self.intr_thresh_hold -ℤ pos 1
            else self.intr_thresh_hold;
        time_stamp = tsc;
      })

module _ (impl : QueueImpl) (W : Type 0) where
  unfoldable pub coremu_intr_get_size : Cpu impl W → ℤ
  coremu_intr_get_size core = impl.queue_get_size core.intr_queue

  unfoldable pub coremu_intr_p : Cpu impl W → Bool
  unfolding coremu_intr_get_size
  coremu_intr_p core = ltb_ℤ (pos 0) (coremu_intr_get_size core)

  -- `fresh` is the address that malloc returns to the queue.
  unfoldable pub coremu_put_intr : ℕ → Cpu impl W → ℕ → Option (Cpu impl W)
  coremu_put_intr fresh core e = do
    q ← impl.enqueue fresh e core.intr_queue
    some (record core { intr_queue = q })

  -- The interrupt, 0 for NULL, and the core.
  unfoldable pub coremu_get_intr : Cpu impl W → Option (ℕ × Cpu impl W)
  unfolding coremu_intr_p
  coremu_get_intr core =
      if coremu_intr_p core
      then (do
        (got, q) ← impl.dequeue core.intr_queue
        elim got [
          | none ↦ some (0, record core { intr_queue = q })
          | some intr ↦ some (intr, record core { intr_queue = q })
        ])
      else some (0, core)

  -- What `coremu_send_signal` makes of the system once it has read the core.
  unfoldable pub signalled : ℕ → Cpu impl W → System impl W → System impl W
  signalled i core s =
      let (core', send_sig_p) = raise (coremu_intr_get_size core) core in
      record (set_core impl W i core' s) {
        effects =
            if coremu_physical_core_enough_p s.sched.host_cpu_avail s.cm_smp_cpus
              || send_sig_p
              || is_halt core'.state
              || is_pause core'.state
            then kill core'.thread coremu_signal
              ∷ set_priority core'.tid s.sched.high_prio
              ∷ s.effects
            else s.effects;
      }

  unfoldable pub coremu_send_signal : ℕ → System impl W → Option (System impl W)
  unfolding signalled
  coremu_send_signal i s = do core ← coremu_get_core impl W i s; some (signalled i core s)

  unfoldable pub coremu_register_event_handler : (ℕ → W → W) → System impl W → System impl W
  coremu_register_event_handler fn s = record s { event_handler = some fn }

  unfoldable pub coremu_register_event_notifier : (W → W) → System impl W → System impl W
  coremu_register_event_notifier fn s = record s { event_notifier = some fn }

  -- The loop of `coremu_receive_intr`, on fuel: `none` if it runs out or the queue does not return.
  unfoldable pub receive_loop : ℕ → (ℕ → W → W) → Cpu impl W → W → Option (Cpu impl W × W)
  receive_loop zero handler core w = none
  receive_loop (suc fuel) handler core w = do
    (intr, core') ← coremu_get_intr core
    let rest = receive_loop fuel handler core' (handler intr w)
    if intr == 0 then some (core', w) else rest

  unfoldable pub coremu_receive_intr : ℕ → Thread → System impl W → Option (Thread × System impl W)
  coremu_receive_intr fuel th s = do
    (i, th') ← coremu_get_core_self impl W th s
    elim s.event_handler [
      | none ↦ some (th', s)
      | some handler ↦ (do
        core ← coremu_get_core impl W i s
        (core', w) ← receive_loop fuel handler core s.guest
        some (th', record (set_core impl W i core' s) { guest = w }))
    ]

  -- The end of `coremu_send_intr`: a notification for the thread's own core, or a signal.
  unfoldable pub wake : ℕ → Thread → System impl W → Option (Thread × System impl W)
  wake coreid th s =
      if coremu_hw_thr_p impl W th s
      then (do s' ← coremu_send_signal coreid s; some (th, s'))
      else (do
        (self, th') ← coremu_get_core_self impl W th s
        if coreid == self
            then (do notify ← s.event_notifier; some (th', record s { guest = notify s.guest }))
            else (do s' ← coremu_send_signal coreid s; some (th', s')))

  -- `coremu_send_intr(e, coreid)` by the thread `th`.
  unfoldable pub coremu_send_intr :
      ℕ → ℕ → ℕ → Thread → System impl W → Option (Thread × System impl W)
  coremu_send_intr fresh e coreid th s =
      if e == 0
      then none
      else if s.init_done
      then (do
        core ← coremu_get_core impl W coreid s
        core' ← coremu_put_intr fresh core e
        wake coreid th (set_core impl W coreid core' s))
      else some (th, s)

  -- `coremu_core_signal_handler`, on the thread that the signal interrupts.
  unfoldable pub coremu_core_signal_handler :
      ℕ → Thread → System impl W → Option (Thread × System impl W)
  coremu_core_signal_handler tsc th s = do
    (i, th') ← coremu_get_core_self impl W th s
    core ← coremu_get_core impl W i s
    core' ← adjust_intr_threshold s.sched.host_cpu_avail s.cm_smp_cpus tsc core
    let guest' = elim s.event_notifier as (λ _. W) [ none ↦ s.guest | some notify ↦ notify s.guest ]
    some (
      th',
      record (set_core impl W i (record core' { sig_pending = 0 }) s) {
        guest = guest';
        effects = set_priority 0 s.sched.avg_prio ∷ s.effects;
      },
    )
