-- ===== src/Sched.antt =====
-- main/sched.c: priorities, the load of the host's processors, and how a core that has nothing to do
-- waits.
pub mod Load
mod Tests
pub mod Wait
use coremu.Common.{
  ℕ, ◌+◌, ◌-◌, ◌/◌, ◌%◌, Bool, Option, none, some, List, [], ◌∷◌, ltb, leb, ◌==◌, if◌then◌else◌,
}
use coremu.Common.Int.{ℤ, pos, negsuc, ◌+ℤ◌, quot_ℤ}
use coremu.Types.{SchedEvent, halted, paused, cnt, CoreState, Effect, nanosleep, yield, set_state}

-- The globals that `coremu_init_sched_all` sets.
pub record Sched : Type 0 where
  pub host_cpu_avail : ℕ
  pub max_prio : ℤ
  pub min_prio : ℤ
  pub avg_prio : ℤ
  pub low_prio : ℤ
  pub high_prio : ℤ

-- `max` and `min` as the code has them, -21 and 19; `host` is what sysconf returned.
unfoldable pub coremu_init_sched_all : ℕ → Sched
unfolding ◌+ℤ◌
coremu_init_sched_all host =
    let hi = negsuc 20 in
    let lo = pos 19 in
    let avg = quot_ℤ (hi +ℤ lo) 2 in
    record {
      host_cpu_avail = host;
      max_prio = hi;
      min_prio = lo;
      avg_prio = avg;
      low_prio = quot_ℤ (avg +ℤ lo) 2;
      high_prio = quot_ℤ (hi +ℤ avg) 2;
    }

-- `(host_cpu_avail + cm_smp_cpus - 1) / host_cpu_avail`; `none` is the division by zero.
unfoldable pub coremu_get_thrs_per_core : ℕ → ℕ → Option ℕ
coremu_get_thrs_per_core host smp_cpus =
    if host == 0 then none else some ((host + smp_cpus - 1) / host)

unfoldable pub coremu_physical_core_enough_p : ℕ → ℕ → Bool
coremu_physical_core_enough_p host smp_cpus = leb smp_cpus host

-- The host's core that `topology_bind_core` binds the core `serial` to; `cores` is what libtopology
-- counted, and `none` the division by zero.
unfoldable pub topology_bind_core : ℕ → ℕ → Option ℕ
topology_bind_core cores serial = if cores == 0 then none else some (serial % cores)

abbrev pub pause_threshold : ℕ
pause_threshold = 100

abbrev pub pause_sleep_time : ℕ
pause_sleep_time = 100000

abbrev pub halt_sleep_max_time : ℕ
halt_sleep_max_time = 5000000

-- `pause_cnt` of the thread, and what it has done so far, the latest first.
pub record Waiter : Type 0 where
  pub pause_cnt : ℕ
  pub done : List Effect

unfoldable pub sched_halted : Waiter → Waiter
sched_halted w = record w {
  done =
      set_state CoreState.run ∷ nanosleep halt_sleep_max_time ∷ set_state CoreState.halt ∷ w.done;
}

unfoldable pub sched_pause : Waiter → Waiter
sched_pause w =
    if ltb w.pause_cnt pause_threshold
    then record w { pause_cnt = w.pause_cnt + 1 }
    else if leb w.pause_cnt (pause_threshold + 1)
    then record { pause_cnt = w.pause_cnt + 1; done = yield ∷ w.done }
    else record {
      pause_cnt = 0;
      done =
          set_state CoreState.run ∷ nanosleep pause_sleep_time ∷ set_state CoreState.pause ∷ w.done;
    }

-- `none` is the failed assert of the default case.
unfoldable pub coremu_cpu_sched : SchedEvent → Waiter → Option Waiter
unfolding sched_halted sched_pause
coremu_cpu_sched halted w = some (sched_halted w)
coremu_cpu_sched paused w = some (sched_pause w)
coremu_cpu_sched cnt w = none
