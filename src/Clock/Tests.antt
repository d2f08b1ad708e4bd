-- ===== src/Clock/Tests.antt =====
-- bios/seabios/src/clock.c: runs at concrete inputs.
use coremu.Common.{
  suc, ◌/◌, ◌%◌, ◌≡◌, refl, true, false, none, if◌then◌else◌, ◌==◌, bit_and, bit_or, arith,
}
use coremu.Clock.{
  Clock, cmos_status_b, usec_per_rtc, timer_setup, handle_08, handle_70, set_usertimer,
}
use coremu.Clock.Services.{
  Registers, handle_1a, handle_1a00, handle_1a01, handle_1a02, handle_1a03, handle_1a04,
  handle_1a05,
}
use coremu.Clock.Ticks.{after_ticks}
use coremu.Clock.Times.{IsBytes, set_read}
use coremu.Clock.Interval.{after_periods, interval_ends}

abbrev quiet : Clock
quiet = record {
  cmos = λ r. if r == 4 then 0x12 else 0;
  timer_counter = 1573038;
  timer_rollover = 0;
  rtc_wait_flag = 0;
  complete_seg = 0;
  complete_offset = 0;
  user_wait_timeout = 0;
  rtc_users = 0;
  bytes = λ seg offset. 0;
}

abbrev waiting : Clock
waiting = record quiet {
  rtc_wait_flag = 1;
  complete_offset = 0x4a0;
  user_wait_timeout = 2500;
  rtc_users = 1;
}

abbrev noon : Registers
noon = record {
  ah = 3;
  al = 0;
  bx = 0;
  ch = 0x12;
  cl = 0x30;
  dh = 0x59;
  dl = 1;
  es = 0;
  di = 0;
  cf = true;
}

noon_setup : (timer_setup quiet).timer_counter ≡ 786520
unfolding timer_setup
noon_setup = refl

midnight : (after_ticks 3 quiet).timer_counter ≡ 1
unfolding handle_08
midnight = refl

set_bits : ((handle_1a (λ r. r) false noon quiet).1).cmos cmos_status_b ≡ 3
unfolding handle_1a
set_bits = refl

busy : set_usertimer 10 0 0 waiting ≡ none
unfolding set_usertimer
busy = refl

periodic_wait :
    (handle_70 (λ s. s) 0x40 (record waiting { cmos = λ r. 0x40 })).user_wait_timeout ≡ 1523
unfolding handle_70
periodic_wait = refl

abbrev noon-IsBytes : IsBytes noon
noon-IsBytes = record {
  ch_byte = omega arith;
  cl_byte = omega arith;
  dh_byte = omega arith;
  dl_byte = omega arith;
}

set_read_example :
    (let t = (handle_1a02 false noon (handle_1a03 false noon quiet).1) in
      (t.ch ≡ 0x12) × (t.cl ≡ 0x30) × (t.dh ≡ 0x59) × (t.dl ≡ bit_and 1 1))
    × (let d = (handle_1a04 false noon (handle_1a05 false noon quiet).1) in
        (d.ch ≡ 0x12) × (d.cl ≡ 0x30) × (d.dh ≡ 0x59) × (d.dl ≡ 1))
    × (let c = (handle_1a00 noon (handle_1a01 noon quiet).1).0 in
        (c.ch ≡ 0x12) × (c.cl ≡ 0x30) × (c.dh ≡ 0x59) × (c.dl ≡ 1))
set_read_example = set_read noon noon quiet noon-IsBytes (omega arith)

interval_ends_example :
    let n = waiting.user_wait_timeout / usec_per_rtc in
    let t = after_periods (suc n) waiting in
    (after_periods n waiting
      ≡ record waiting { user_wait_timeout = waiting.user_wait_timeout % usec_per_rtc })
    × (t.bytes waiting.complete_seg waiting.complete_offset
        ≡ bit_or (waiting.bytes waiting.complete_seg waiting.complete_offset) 0x80)
    × (t.rtc_wait_flag ≡ 0)
    × (suc t.rtc_users ≡ waiting.rtc_users)
interval_ends_example = interval_ends waiting refl (omega arith) (omega arith)
