-- ===== src/Lifecycle.antt =====
-- main/core.c: how COREMU and its cores are set up and started.
pub mod Boot
pub mod Setup
mod Tests
pub mod Threads
pub mod Wait
use coremu.Common.{
  ℕ, zero, suc, ◌+◌, Bool, true, false, Option, none, some, List, [], ◌∷◌, ◌==◌, replicate,
  if◌then◌else◌,
}
use coremu.Common.Int.{pos}
use coremu.Types.{
  Core, CoreState, Effect, set_priority, block_signal, handle_signal, create, nanosleep,
}
use coremu.Sched.{Sched, coremu_init_sched_all}
use coremu.Queue.{QueueImpl}
use coremu.System.{
  ◌>>=◌, Thread, Cpu, System, coremu_get_core, set_core, coremu_get_core_self, coremu_init_hw,
}
use coremu.Intr.{coremu_signal}

-- `TIMERRTSIG`, SIGRTMIN.
abbrev pub timer_rt_sig : ℕ
timer_rt_sig = 34

module _ (impl : QueueImpl) (W : Type 0) where
  -- A core in the array as `coremu_mallocz` clears it; `null_queue` stands for the NULL pointer.
  abbrev pub cleared : impl.Queue → Cpu impl W
  cleared null_queue = record {
    serial = 0;
    thread = 0;
    tid = 0;
    intr_queue = null_queue;
    time_stamp = 0;
    intr_thresh_hold = pos 0;
    sig_pending = 0;
    opaque = 0;
    state = CoreState.run;
  }

  -- `coremu_init` by the thread `th`: `host` is what sysconf returned, `block` the address that malloc
  -- returned; `none` is the abort on NULL.
  unfoldable pub coremu_init :
      impl.Queue → ℕ → ℕ → ℕ → Thread → System impl W → Option (System impl W)
  coremu_init null_queue host block smp_cpus th s =
      let sched = coremu_init_sched_all host in
      let s' : System impl W = record s {
        sched = sched;
        cm_smp_cpus = smp_cpus;
        cm_cores = replicate smp_cpus (cleared null_queue);
        effects = block_signal timer_rt_sig ∷ set_priority 0 sched.high_prio ∷ s.effects;
      } in
      if block == 0 then none else (do
        let s'' = coremu_init_hw impl W smp_cpus th s'
        some (record s'' { effects = handle_signal coremu_signal ∷ s''.effects }))

  -- `coremu_core_init(id, opaque)`; `fresh` is the address that malloc returns for the new queue.
  unfoldable pub coremu_core_init : ℕ → ℕ → ℕ → System impl W → Option (System impl W)
  coremu_core_init fresh id opaque s = do
    core ← coremu_get_core impl W id s
    q ← impl.new_queue fresh
    some (
        set_core impl W id
          (record core { serial = id; intr_queue = q; opaque = opaque; state = CoreState.run }) s)

  -- The loop of `coremu_run_all_cores` from core `i` on: `created i` is the thread that
  -- `pthread_create` returned for core `i`, and `none` its error, which is asserted not to happen.
  unfoldable pub create_all :
      (ℕ → Option ℕ)
      → ℕ
      → List (Cpu impl W)
      → List Effect
      → Option (List (Cpu impl W) × List Effect)
  create_all created i [] effects = some ([], effects)
  create_all created i (core ∷ cores) effects = do
    thread ← created i
    (cores', effects') ← create_all created (suc i) cores (create thread core.opaque ∷ effects)
    some (record core { thread = thread } ∷ cores', effects')

  unfoldable pub coremu_run_all_cores : (ℕ → Option ℕ) → System impl W → Option (System impl W)
  coremu_run_all_cores created s = do
    (cores, effects) ← create_all created 0 s.cm_cores s.effects
    some (record s { cm_cores = cores; effects = effects; init_done = true })

  unfoldable pub coremu_init_done_p : System impl W → Bool
  coremu_init_done_p s = s.init_done

  -- `coremu_init_sched_core` by the thread `th` with the kernel's thread id `tid`.
  unfoldable pub coremu_init_sched_core :
      ℕ → Thread → System impl W → Option (Thread × System impl W)
  coremu_init_sched_core tid th s = do
    (i, th') ← coremu_get_core_self impl W th s
    core ← coremu_get_core impl W i s
    some (
      th',
      record (set_core impl W i (record core { tid = tid }) s) {
        effects = set_priority 0 s.sched.avg_prio ∷ s.effects;
      },
    )

-- `coremu_wait_init`: `seen k` is `init_done` as the loop reads it for the `k`-th time; the result is
-- what the thread has done, and `none` that the fuel is used up.
unfoldable pub coremu_wait_init : ℕ → ℕ → (ℕ → Bool) → List Effect → Option (List Effect)
coremu_wait_init zero k seen done = none
coremu_wait_init (suc fuel) k seen done =
    let rest = coremu_wait_init fuel (suc k) seen (nanosleep 1000000 ∷ done) in
    if seen k then some done else rest
