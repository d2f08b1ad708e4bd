-- ===== src/Kbd.antt =====
-- bios/seabios/src/kbd.c: the keyboard buffer in the BIOS data area and the services of interrupt 16h.
pub mod Keys
pub mod Ring
pub mod Queue
pub mod Flags
pub mod Pause
pub mod Locks
pub mod Releases
pub mod Letters
mod Tests
use coremu.Common.{
  ℕ, ◌+◌, ◌*◌, ◌/◌, ◌%◌, ◌^◌, Bool, true, false, not, ◌&&◌, ◌||◌, Option, none, some, List, [], ◌∷◌,
  ltb, leb, ◌==◌, if◌then◌else◌, bit_and, bit_or,
}

-- The fields of `struct bios_data_area_s` that the keyboard uses, and the bytes of the segment of
-- which `kbd_buf` is a part.
pub record Bda : Type 0 where
  pub kbd_flag0 : ℕ  -- u8
  pub kbd_flag1 : ℕ  -- u8
  pub kbd_flag2 : ℕ  -- u8
  pub kbd_led : ℕ  -- u8
  pub kbd_buf_head : ℕ  -- u16
  pub kbd_buf_tail : ℕ  -- u16
  pub kbd_buf_start_offset : ℕ  -- u16
  pub kbd_buf_end_offset : ℕ  -- u16
  pub soft_reset_flag : ℕ  -- u16
  pub bytes : ℕ → ℕ

-- The registers of `struct bregs` that the services use; `zf` is the bit F_ZF of `flags`.
pub record Bregs : Type 0 where
  pub ah : ℕ
  pub al : ℕ
  pub bx : ℕ
  pub ch : ℕ
  pub cl : ℕ
  pub zf : Bool

-- `offsetof(struct bios_data_area_s, kbd_buf)` and `FIELD_SIZEOF` of it.
abbrev pub kbd_buf : ℕ
kbd_buf = 0x1e

abbrev pub kbd_buf_size : ℕ
kbd_buf_size = 32

-- `SET_FARVAR(SEG_BDA, *(u8*)(a), v)`.
abbrev pub set_byte : ℕ → ℕ → (ℕ → ℕ) → ℕ → ℕ
set_byte a v bytes x = if x == a then v else bytes x

unfoldable pub kbd_setup : Bda → Bda
kbd_setup bda = record bda {
  kbd_flag2 = 0x10;
  kbd_buf_head = kbd_buf;
  kbd_buf_tail = kbd_buf;
  kbd_buf_start_offset = kbd_buf;
  kbd_buf_end_offset = (kbd_buf + kbd_buf_size) % 2 ^ 16;
}

-- The position behind `p`, which goes round at the end of the buffer.
abbrev pub next : ℕ → Bda → ℕ
next p bda =
    if leb bda.kbd_buf_end_offset ((p + 2) % 2 ^ 16)
    then bda.kbd_buf_start_offset
    else (p + 2) % 2 ^ 16

-- What is returned, and the data area afterwards.
unfoldable pub enqueue_key : ℕ → ℕ → Bda → ℕ × Bda
enqueue_key scan_code ascii_code bda =
    if next bda.kbd_buf_tail bda == bda.kbd_buf_head then (0, bda) else (
      1,
      record bda {
        bytes =
            set_byte (bda.kbd_buf_tail + 1) scan_code
              (set_byte bda.kbd_buf_tail ascii_code bda.bytes);
        kbd_buf_tail = next bda.kbd_buf_tail bda;
      },
    )

-- The part of `dequeue_key` behind its loop.
unfoldable pub take_key : Bool → Bool → Bregs → Bda → Bregs × Bda
take_key incr extended regs bda =
    let ascii_code = bda.bytes bda.kbd_buf_head in
    let scan_code = bda.bytes (bda.kbd_buf_head + 1) in
    let al =
      if (ascii_code == 0xf0 && not (scan_code == 0)) || (ascii_code == 0xe0 && not extended)
      then 0
      else ascii_code in
    if incr
    then (
      record regs { ah = scan_code; al = al },
      record bda { kbd_buf_head = next bda.kbd_buf_head bda },
    )
    else (record regs { ah = scan_code; al = al; zf = false }, bda)

-- `irqs` is what happens to the data area while the loop waits, one round after the other. There is no
-- result when the buffer is still empty after the last of them.
unfoldable pub dequeue_key : List (Bda → Bda) → Bool → Bool → Bregs → Bda → Option (Bregs × Bda)
dequeue_key [] incr extended regs bda =
    if bda.kbd_buf_head == bda.kbd_buf_tail
    then (if incr then none else some (record regs { zf = true }, bda))
    else some (take_key incr extended regs bda)
dequeue_key (irq ∷ irqs) incr extended regs bda =
    let rest = dequeue_key irqs incr extended regs (irq bda) in
    if bda.kbd_buf_head == bda.kbd_buf_tail
    then (if incr then rest else some (record regs { zf = true }, bda))
    else some (take_key incr extended regs bda)

unfoldable pub handle_1600 : List (Bda → Bda) → Bregs → Bda → Option (Bregs × Bda)
unfolding dequeue_key
handle_1600 irqs regs bda = dequeue_key irqs true false regs bda

unfoldable pub handle_1601 : List (Bda → Bda) → Bregs → Bda → Option (Bregs × Bda)
unfolding dequeue_key
handle_1601 irqs regs bda = dequeue_key irqs false false regs bda

unfoldable pub handle_1610 : List (Bda → Bda) → Bregs → Bda → Option (Bregs × Bda)
unfolding dequeue_key
handle_1610 irqs regs bda = dequeue_key irqs true true regs bda

unfoldable pub handle_1611 : List (Bda → Bda) → Bregs → Bda → Option (Bregs × Bda)
unfolding dequeue_key
handle_1611 irqs regs bda = dequeue_key irqs false true regs bda

unfoldable pub handle_1602 : Bregs → Bda → Bregs
handle_1602 regs bda = record regs { al = bda.kbd_flag0 }

unfoldable pub handle_1605 : Bregs → Bda → Bregs × Bda
handle_1605 regs bda =
    let (ret, bda') = enqueue_key regs.ch regs.cl bda in
    (record regs { al = if ret == 0 then 1 else 0 }, bda')

unfoldable pub handle_1609 : Bregs → Bregs
handle_1609 regs = record regs { al = 0x30 }

unfoldable pub handle_1612 : Bregs → Bda → Bregs
handle_1612 regs bda = record regs {
  al = bda.kbd_flag0;
  ah = bit_or (bit_and bda.kbd_flag1 0xf3) (bit_and bda.kbd_flag2 0xc);
}

unfoldable pub handle_166f : Bregs → Bregs
handle_166f regs = if regs.al == 8 then record regs { ah = 2 } else regs

unfoldable pub handle_1692 : Bregs → Bregs
handle_1692 regs = record regs { ah = 0x80 }

-- `kbd_command` is the keyboard's answer to a command and two parameter bytes: nothing on an error.
module _ (kbd_command : ℕ → ℕ × ℕ → Option (ℕ × ℕ)) where
  abbrev pub atkbd_cmd_setleds : ℕ
  atkbd_cmd_setleds = 0x10ed

  abbrev pub atkbd_cmd_getid : ℕ
  atkbd_cmd_getid = 0x02f2

  unfoldable pub handle_160a : Bregs → Bregs
  handle_160a regs = elim (kbd_command atkbd_cmd_getid (0, 0)) [
    | none ↦ record regs { bx = 0 }
    | some (low, high) ↦ record regs { bx = high * 256 + low }
  ]

  unfoldable pub set_leds : Bda → Bda
  set_leds bda =
      let shift_flags = bit_and (bda.kbd_flag0 / 16) 7 in
      if shift_flags == bit_and bda.kbd_led 7
      then bda
      else elim (kbd_command atkbd_cmd_setleds (shift_flags, 0)) [
        | none ↦ bda
        | some _ ↦ record bda { kbd_led = bit_or (bit_and bda.kbd_led 0xf8) shift_flags }
      ]

  -- The switch of `handle_16`.
  unfoldable pub service : List (Bda → Bda) → Bregs → Bda → Option (Bregs × Bda)
  unfolding handle_1600 handle_1601 handle_1602 handle_1605 handle_1609 handle_160a handle_1610
      handle_1611 handle_1612 handle_166f handle_1692
  service irqs regs bda =
      if regs.ah == 0x00
      then handle_1600 irqs regs bda
      else if regs.ah == 0x01
      then handle_1601 irqs regs bda
      else if regs.ah == 0x02
      then some (handle_1602 regs bda, bda)
      else if regs.ah == 0x05
      then some (handle_1605 regs bda)
      else if regs.ah == 0x09
      then some (handle_1609 regs, bda)
      else if regs.ah == 0x0a
      then some (handle_160a regs, bda)
      else if regs.ah == 0x10
      then handle_1610 irqs regs bda
      else if regs.ah == 0x11
      then handle_1611 irqs regs bda
      else if regs.ah == 0x12
      then some (handle_1612 regs bda, bda)
      else if regs.ah == 0x92
      then some (handle_1692 regs, bda)
      else if regs.ah == 0x6f
      then some (handle_166f regs, bda)
      else some (regs, bda)

  unfoldable pub handle_16 : List (Bda → Bda) → Bregs → Bda → Option (Bregs × Bda)
  handle_16 irqs regs bda = service irqs regs (set_leds bda)
