-- ===== src/Sched/Tests.antt =====
-- Runs of main/sched.c, and its theorems at inputs.
use coremu.Common.{◌≡◌, refl, none}
use coremu.Common.Int.{pos, negsuc}
use coremu.Types.{cnt}
use coremu.Sched.{coremu_init_sched_all, coremu_cpu_sched}
use coremu.Sched.Wait.{fresh_waiter}

priorities : coremu_init_sched_all 4 ≡ record {
  host_cpu_avail = 4;
  max_prio = negsuc 20;
  min_prio = pos 19;
  avg_prio = negsuc 0;
  low_prio = pos 9;
  high_prio = negsuc 10;
}
unfolding coremu_init_sched_all
priorities = refl

unknown_event : coremu_cpu_sched cnt fresh_waiter ≡ none
unfolding coremu_cpu_sched
unknown_event = refl
