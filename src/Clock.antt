-- ===== src/Clock.antt =====
-- bios/seabios/src/clock.c: the count of ticks, the clock in the CMOS and the interval timer.
pub mod Services
pub mod Ticks
pub mod Times
pub mod Interval
mod Tests
use coremu.Common.{
  ℕ, zero, suc, ◌+◌, ◌-◌, ◌*◌, ◌/◌, ◌%◌, ◌^◌, Bool, true, false, not, ◌&&◌, ◌||◌, Option, none,
  some, List, [], ◌∷◌, ltb, leb, ◌==◌, if◌then◌else◌, bit_and, bit_or,
}

-- The fields of the BIOS data area and of the EBDA that the clock uses, the registers of the CMOS, and
-- the memory by segment and offset. `complete_seg` and `complete_offset` are user_wait_complete_flag.
pub record Clock : Type 0 where
  pub cmos : ℕ → ℕ  -- u8
  pub timer_counter : ℕ  -- u32
  pub timer_rollover : ℕ  -- u8
  pub rtc_wait_flag : ℕ  -- u8
  pub complete_seg : ℕ  -- u16
  pub complete_offset : ℕ  -- u16
  pub user_wait_timeout : ℕ  -- u32
  pub rtc_users : ℕ  -- int
  pub bytes : ℕ → ℕ → ℕ

abbrev pub cmos_status_a : ℕ
cmos_status_a = 0x0a

abbrev pub cmos_status_b : ℕ
cmos_status_b = 0x0b

abbrev pub rtc_b_pie : ℕ
rtc_b_pie = 0x40

abbrev pub rtc_b_aie : ℕ
rtc_b_aie = 0x20

abbrev pub any_of : ℕ → ℕ → Bool
any_of flags mask = not (bit_and flags mask == 0)

-- `flags & ~mask` of a byte.
abbrev pub clear : ℕ → ℕ → ℕ
clear flags mask = bit_and flags (255 - mask)

-- The register keeps what is written.
abbrev pub outb_cmos : ℕ → ℕ → Clock → Clock
outb_cmos val reg s = record s { cmos = λ r. if r == reg then val else s.cmos r }

unfoldable pub init_rtc : Clock → Clock
init_rtc s =
    let s' = outb_cmos 0x26 cmos_status_a s in
    outb_cmos (bit_or (bit_and (s'.cmos cmos_status_b) 1) 2) cmos_status_b s'

unfoldable pub bcd2bin : ℕ → ℕ
bcd2bin val = val % 16 + val / 16 * 10

abbrev pub pit_tick_rate : ℕ
pit_tick_rate = 1193180

abbrev pub pit_tick_interval : ℕ
pit_tick_interval = 65536

abbrev pub ticks_per_day : ℕ
ticks_per_day = 60 * 60 * 24 * pit_tick_rate / pit_tick_interval

-- The part of `timer_setup` that keeps the time, behind the wait for the clock.
unfoldable pub timer_setup : Clock → Clock
unfolding init_rtc bcd2bin
timer_setup s =
    let s' = init_rtc s in
    let seconds = bcd2bin (s'.cmos 0) in
    let minutes = bcd2bin (s'.cmos 2) in
    let hours = bcd2bin (s'.cmos 4) in
    let ticks = (hours * 60 + minutes) * 60 + seconds in
    record s' {
      timer_counter = ticks * pit_tick_rate / pit_tick_interval % 2 ^ 32;
      timer_rollover = 0;
    }

-- `others` is what usb_check_key and the handlers of interrupt 1ch do; floppy_tick has no part in
-- these fields.
unfoldable pub handle_08 : (Clock → Clock) → Clock → Clock
handle_08 others s =
    let counter = (s.timer_counter + 1) % 2 ^ 32 in
    others (
      if leb ticks_per_day counter
      then record s { timer_counter = 0; timer_rollover = (s.timer_rollover + 1) % 2 ^ 8 }
      else record s { timer_counter = counter })

unfoldable pub use_rtc : Clock → Clock
use_rtc s =
    let s' = record s { rtc_users = (s.rtc_users + 1) % 2 ^ 32 } in
    if s.rtc_users == 0
    then outb_cmos (bit_or (s'.cmos cmos_status_b) rtc_b_pie) cmos_status_b s'
    else s'

unfoldable pub release_rtc : Clock → Clock
release_rtc s =
    let s' = record s { rtc_users = (s.rtc_users + (2 ^ 32 - 1)) % 2 ^ 32 } in
    if s.rtc_users == 1
    then outb_cmos (clear (s'.cmos cmos_status_b) rtc_b_pie) cmos_status_b s'
    else s'

abbrev pub rws_wait_pending : ℕ
rws_wait_pending = 1

-- Nothing when an interval is set already.
unfoldable pub set_usertimer : ℕ → ℕ → ℕ → Clock → Option Clock
unfolding use_rtc
set_usertimer usecs seg offset s =
    if any_of s.rtc_wait_flag rws_wait_pending
    then none
    else some (
        use_rtc (record s {
          rtc_wait_flag = rws_wait_pending;
          complete_seg = seg;
          complete_offset = offset;
          user_wait_timeout = usecs;
        }))

unfoldable pub clear_usertimer : Clock → Clock
unfolding release_rtc
clear_usertimer s =
    if not (any_of s.rtc_wait_flag rws_wait_pending)
    then s
    else release_rtc (record s { rtc_wait_flag = 0 })

-- `DIV_ROUND_CLOSEST(1000000, 1024)`.
abbrev pub usec_per_rtc : ℕ
usec_per_rtc = (1000000 + 1024 / 2) / 1024

-- The end of a wait: the flag byte gets its bit 7.
unfoldable pub finish_wait : Clock → Clock
unfolding clear_usertimer
finish_wait s = clear_usertimer (record s {
  bytes = λ seg offset.
      if seg == s.complete_seg && offset == s.complete_offset
      then bit_or (s.bytes seg offset) 0x80
      else s.bytes seg offset;
})

-- The part of `handle_70` for the periodic interrupt.
unfoldable pub periodic : Clock → Clock
unfolding finish_wait
periodic s =
    if s.rtc_wait_flag == 0
    then s
    else if ltb s.user_wait_timeout usec_per_rtc
    then finish_wait s
    else record s { user_wait_timeout = s.user_wait_timeout - usec_per_rtc }

-- `register_c` is what the clock reports, and `int4a` what the handlers of interrupt 4ah do. What other
-- threads do in check_preempt is left out.
unfoldable pub handle_70 : (Clock → Clock) → ℕ → Clock → Clock
unfolding periodic
handle_70 int4a register_c s =
    let s' = if any_of register_c rtc_b_aie then int4a s else s in
    if not (any_of (s.cmos cmos_status_b) (rtc_b_pie + rtc_b_aie))
    then s
    else if not (any_of register_c rtc_b_pie)
    then s'
    else periodic s'
