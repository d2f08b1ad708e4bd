-- ===== src/Clock/Services.antt =====
-- bios/seabios/src/clock.c: the services of interrupts 1ah and 15h, without CONFIG_COREBOOT.
use coremu.Common.{
  ℕ, ◌+◌, ◌*◌, ◌/◌, ◌%◌, ◌^◌, Bool, true, false, ◌&&◌, Option, none, some, List, [], ◌∷◌, ◌==◌,
  if◌then◌else◌, bit_and, bit_or,
}
use coremu.Clock.{
  Clock, cmos_status_b, rtc_b_pie, rtc_b_aie, any_of, clear, outb_cmos, init_rtc, set_usertimer,
  clear_usertimer,
}

-- The registers of `struct bregs` that the services use; `cf` is the bit F_CF of `flags`.
pub record Registers : Type 0 where
  pub ah : ℕ
  pub al : ℕ
  pub bx : ℕ
  pub ch : ℕ
  pub cl : ℕ
  pub dh : ℕ
  pub dl : ℕ
  pub es : ℕ
  pub di : ℕ
  pub cf : Bool

-- `set_success`, `set_invalid` and `set_code_invalid`.
abbrev pub set_success : Registers → Registers
set_success regs = record regs { cf = false }

abbrev pub set_invalid : Registers → Registers
set_invalid regs = record regs { cf = true }

abbrev pub set_code_invalid : ℕ → Registers → Registers
set_code_invalid code regs = record regs { ah = code; cf = true }

-- `(regs->cx << 16) | regs->dx`.
abbrev pub cx_dx : Registers → ℕ
cx_dx regs = (regs.ch * 256 + regs.cl) * 2 ^ 16 + (regs.dh * 256 + regs.dl)

-- `s` is the state behind the call of yield.
unfoldable pub handle_1a00 : Registers → Clock → Registers × Clock
handle_1a00 regs s = (
  set_success (record regs {
    ch = s.timer_counter / 2 ^ 24 % 256;
    cl = s.timer_counter / 2 ^ 16 % 256;
    dh = s.timer_counter / 2 ^ 8 % 256;
    dl = s.timer_counter % 256;
    al = s.timer_rollover;
  }),
  record s { timer_rollover = 0 },
)

unfoldable pub handle_1a01 : Registers → Clock → Registers × Clock
handle_1a01 regs s = (
  set_success (record regs { ah = 0 }),
  record s { timer_counter = cx_dx regs; timer_rollover = 0 },
)

-- `updating` is the answer of rtc_updating: an update of the clock goes on.
unfoldable pub handle_1a02 : Bool → Registers → Clock → Registers
handle_1a02 updating regs s =
    if updating
    then set_invalid regs
    else set_success (record regs {
      dh = s.cmos 0;
      cl = s.cmos 2;
      ch = s.cmos 4;
      dl = bit_and (s.cmos cmos_status_b) 1;
      ah = 0;
      al = s.cmos 4;
    })

unfoldable pub handle_1a03 : Bool → Registers → Clock → Registers × Clock
unfolding init_rtc
handle_1a03 updating regs s =
    let s' = if updating then init_rtc s else s in
    let t = outb_cmos regs.ch 4 (outb_cmos regs.cl 2 (outb_cmos regs.dh 0 s')) in
    let val8 =
      bit_or (bit_or (bit_and (t.cmos cmos_status_b) (rtc_b_pie + rtc_b_aie)) 2)
        (bit_and regs.dl 1) in
    (set_success (record regs { ah = 0; al = val8 }), outb_cmos val8 cmos_status_b t)

unfoldable pub handle_1a04 : Bool → Registers → Clock → Registers
handle_1a04 updating regs s =
    if updating
    then set_invalid (record regs { ah = 0 })
    else set_success (record regs {
      ah = 0;
      cl = s.cmos 9;
      dh = s.cmos 8;
      dl = s.cmos 7;
      ch = s.cmos 0x32;
      al = s.cmos 0x32;
    })

unfoldable pub handle_1a05 : Bool → Registers → Clock → Registers × Clock
unfolding init_rtc
handle_1a05 updating regs s =
    let t =
      outb_cmos regs.ch 0x32 (outb_cmos regs.dl 7 (outb_cmos regs.dh 8 (outb_cmos regs.cl 9 s))) in
    let val8 = clear (t.cmos cmos_status_b) 0x80 in
    if updating
    then (set_invalid regs, init_rtc s)
    else (set_success (record regs { ah = 0; al = val8 }), outb_cmos val8 cmos_status_b t)

unfoldable pub handle_1a06 : Bool → Registers → Clock → Registers × Clock
unfolding init_rtc
handle_1a06 updating regs s =
    let val8 = s.cmos cmos_status_b in
    let regs' = record regs { ah = 0; al = 0 } in
    let s' = if updating then init_rtc s else s in
    if any_of val8 rtc_b_aie then (set_invalid regs', s) else (
      set_success regs',
      outb_cmos (bit_or (clear val8 0x80) rtc_b_aie) cmos_status_b
          (outb_cmos regs.ch 5 (outb_cmos regs.cl 3 (outb_cmos regs.dh 1 s'))),
    )

unfoldable pub handle_1a07 : Registers → Clock → Registers × Clock
handle_1a07 regs s =
    let val8 = s.cmos cmos_status_b in
    (
      set_success (record regs { ah = 0; al = val8 }),
      outb_cmos (clear val8 (0x80 + rtc_b_aie)) cmos_status_b s,
    )

-- The loop of `handle_1586`; `irqs` is what happens while it waits, one round after the other.
unfoldable pub wait_flag : ℕ → ℕ → List (Clock → Clock) → Clock → Option Clock
wait_flag seg offset [] s = if s.bytes seg offset == 0 then none else some s
wait_flag seg offset (irq ∷ irqs) s =
    let rest = wait_flag seg offset irqs (irq s) in if s.bytes seg offset == 0 then rest else some s

abbrev pub ret_eclockinuse : ℕ
ret_eclockinuse = 0x83

abbrev pub after_wait : Registers → Option Clock → Option (Registers × Clock)
after_wait regs none = none
after_wait regs (some s) = some (set_success regs, s)

-- `seg` and `offset` are the place of `statusflag` on the stack.
abbrev pub wait_from :
    ℕ → ℕ → List (Clock → Clock) → Registers → Clock → Option Clock → Option (Registers × Clock)
wait_from seg offset irqs regs s none = some (set_code_invalid ret_eclockinuse regs, s)
wait_from seg offset irqs regs s (some t) = after_wait regs (wait_flag seg offset irqs t)

unfoldable pub handle_1586 :
    ℕ → ℕ → List (Clock → Clock) → Registers → Clock → Option (Registers × Clock)
unfolding set_usertimer wait_flag
handle_1586 seg offset irqs regs s =
    let s' = record s { bytes = λ g o. if g == seg && o == offset then 0 else s.bytes g o } in
    wait_from seg offset irqs regs s' (set_usertimer (cx_dx regs) seg offset s')

abbrev pub ret_eunsupported : ℕ
ret_eunsupported = 0x86

abbrev pub interval_set : Registers → Clock → Option Clock → Registers × Clock
interval_set regs s none = (set_code_invalid ret_eunsupported regs, s)
interval_set regs s (some t) = (set_success regs, t)

unfoldable pub handle_158300 : Registers → Clock → Registers × Clock
unfolding set_usertimer
handle_158300 regs s = interval_set regs s (set_usertimer (cx_dx regs) regs.es regs.bx s)

unfoldable pub handle_158301 : Registers → Clock → Registers × Clock
unfolding clear_usertimer
handle_158301 regs s = (set_success regs, clear_usertimer s)

unfoldable pub handle_1583 : Registers → Clock → Registers × Clock
unfolding handle_158300 handle_158301
handle_1583 regs s =
    if regs.al == 0
    then handle_158300 regs s
    else if regs.al == 1
    then handle_158301 regs s
    else (record (set_code_invalid ret_eunsupported regs) { al = (regs.al + 255) % 256 }, s)

-- `pci` is handle_1ab1, the service for PCI.
unfoldable pub handle_1a : (Registers → Registers) → Bool → Registers → Clock → Registers × Clock
unfolding handle_1a00 handle_1a01 handle_1a02 handle_1a03 handle_1a04 handle_1a05 handle_1a06
    handle_1a07
handle_1a pci updating regs s =
    if regs.ah == 0
    then handle_1a00 regs s
    else if regs.ah == 1
    then handle_1a01 regs s
    else if regs.ah == 2
    then (handle_1a02 updating regs s, s)
    else if regs.ah == 3
    then handle_1a03 updating regs s
    else if regs.ah == 4
    then (handle_1a04 updating regs s, s)
    else if regs.ah == 5
    then handle_1a05 updating regs s
    else if regs.ah == 6
    then handle_1a06 updating regs s
    else if regs.ah == 7
    then handle_1a07 regs s
    else if regs.ah == 0xb1
    then (pci regs, s)
    else (set_invalid regs, s)
