-- ===== src/Pause/Tests.antt =====
-- Witnesses and runs of the pause protocol.
use coremu.Common.{ℕ, ◌<◌, ◌≡◌, refl, true, none, arith}
use coremu.Types.{run, pause}
use coremu.Pause.{
  Host, calm, sched, away, sleeping, all_paused, at, World, CoreStep, call, mark, sleep, wake,
  relock, resume, WaitStep, first, see, last, move, wait, restart, Reach, begin, later,
}
use coremu.Pause.Parked.{all_paused-sleeping}

in_range : 0 < 1
in_range = omega arith

record Run (b : Host) : Type 0 where
  world : World
  reach : Reach b 1 world

-- One core, which goes to sleep in `coremu_pause_core`, and the thread that waits for it.
abbrev paused : (b : Host) → Run b
paused b = record {
  world = _;
  reach =
      later
        (later
          (later
            (later
              (later
                (later
                  (later (later begin (move 0 in_range call))
                    (move 0 in_range (CoreStep.lock refl)))
                  (move 0 in_range mark))
                (move 0 in_range sleep))
              (wait (first in_range)))
            (wait (WaitStep.lock refl)))
          (wait (see refl)))
        (wait (last (omega arith)));
}

abbrev restless : Host
restless = record { spurious = true; naps = true }

-- The wait ends by itself, and the core runs while the waiting thread takes it for paused.
abbrev runs_on : Run restless
runs_on = record {
  world = _;
  reach =
      later
        (later (later (paused restless).reach (move 0 in_range (wake refl)))
          (move 0 in_range (relock refl)))
        (move 0 in_range resume);
}

runs_on-all_paused : (runs_on.world.waiting ≡ all_paused) × ((runs_on.world.cores 0).state ≡ run)
runs_on-all_paused = (refl, refl)

-- A core in `sched_pause` is taken for paused, and runs.
abbrev napping : Run restless
napping = record {
  world = _;
  reach =
      later
        (later
          (later
            (later
              (later (later begin (move 0 in_range (sched pause (λ e. refl))))
                (wait (first in_range)))
              (wait (WaitStep.lock refl)))
            (wait (see refl)))
          (wait (last (omega arith))))
        (move 0 in_range (sched run (λ e. refl)));
}

napping-all_paused : (napping.world.waiting ≡ all_paused) × (napping.world.cores 0 ≡ at away run)
napping-all_paused = (refl, refl)

-- After a restart that the core has not followed yet, it is at once taken for paused again, and
-- runs.
abbrev stale : Run calm
stale = record {
  world = _;
  reach =
      later
        (later
          (later
            (later
              (later (later (later (paused calm).reach (restart refl)) (wait (first in_range)))
                (wait (WaitStep.lock refl)))
              (wait (see refl)))
            (wait (last (omega arith))))
          (move 0 in_range (relock refl)))
        (move 0 in_range resume);
}

stale-all_paused : (stale.world.waiting ≡ all_paused) × ((stale.world.cores 0).state ≡ run)
stale-all_paused = (refl, refl)

all_paused-sleeping_example :
    ((i : ℕ) → i < 1 → ((paused calm).world.cores i).pauser ≡ sleeping)
    × ((paused calm).world.pause_mutex ≡ none)
all_paused-sleeping_example = all_paused-sleeping (paused calm).reach refl refl
