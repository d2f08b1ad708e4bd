-- ===== src/Clock/Ticks.antt =====
-- bios/seabios/src/clock.c: the count of ticks and of days.
use coremu.Common.{ℕ, zero, suc, ◌+◌, ◌*◌, ◌<◌, ◌≡◌, arith}
use coremu.Clock.{Clock, ticks_per_day, handle_08}

-- The ticks since midnight of the day on which the rollovers were last read.
abbrev pub all_ticks : Clock → ℕ
all_ticks s = s.timer_counter + ticks_per_day * s.timer_rollover

-- A number of timer interrupts.
abbrev pub after_ticks : ℕ → Clock → Clock
after_ticks zero s = s
after_ticks (suc n) s = after_ticks n (handle_08 (λ t. t) s)

one_tick :
    (s : Clock)
    → s.timer_counter < ticks_per_day
    → suc (all_ticks s) < ticks_per_day * 256
    → ((handle_08 (λ t. t) s).timer_counter < ticks_per_day)
      × (all_ticks (handle_08 (λ t. t) s) ≡ suc (all_ticks s))
unfolding handle_08
one_tick s h l = ground (arith, h, l)

-- As long as fewer than 256 days pass, and what the interrupt chains to leaves the clock alone, the timer interrupt counts every tick: the counter stays below
-- the ticks of a day, and with the days that have rolled over it is one more after each interrupt.
after_ticks-counts :
    (n : ℕ) (s : Clock)
    → s.timer_counter < ticks_per_day
    → all_ticks s + n < ticks_per_day * 256
    → ((after_ticks n s).timer_counter < ticks_per_day)
      × (all_ticks (after_ticks n s) ≡ all_ticks s + n)
after_ticks-counts zero s h l = (h, omega arith)
after_ticks-counts (suc n) s h l =
    let (h', e) = one_tick s h (omega (arith, l)) in
    let (h'', f) = after_ticks-counts n (handle_08 (λ t. t) s) h' (omega (arith, e, l)) in
    (h'', omega (arith, e, f))
