-- ===== src/Kbd/Keys.antt =====
-- bios/seabios/src/kbd.c: what a scan code does to the flags and which key it puts into the buffer.
use coremu.Common.{
  ℕ, ◌+◌, ◌-◌, ◌*◌, ◌/◌, ◌%◌, Bool, not, ◌&&◌, Option, none, some, List, [], ◌∷◌, leb, ◌==◌,
  if◌then◌else◌, bit_and, bit_or, bit_xor, get_elem?,
}
use coremu.Kbd.{Bda, enqueue_key}

-- `struct scaninfo`.
pub record ScanInfo : Type 0 where
  pub normal : ℕ  -- u16
  pub shift : ℕ  -- u16
  pub control : ℕ  -- u16
  pub alt : ℕ  -- u16
  pub lock_flags : ℕ  -- u8

abbrev info : ℕ → ℕ → ℕ → ℕ → ℕ → ScanInfo
info n s c a l = record { normal = n; shift = s; control = c; alt = a; lock_flags = l }

abbrev pub scan_to_scanascii : List ScanInfo
scan_to_scanascii =
    info 0 0 0 0 0
    ∷ info 0x011b 0x011b 0x011b 0x0100 0
    ∷ info 0x0231 0x0221 0 0x7800 0
    ∷ info 0x0332 0x0340 0x0300 0x7900 0
    ∷ info 0x0433 0x0423 0 0x7a00 0
    ∷ info 0x0534 0x0524 0 0x7b00 0
    ∷ info 0x0635 0x0625 0 0x7c00 0
    ∷ info 0x0736 0x075e 0x071e 0x7d00 0
    ∷ info 0x0837 0x0826 0 0x7e00 0
    ∷ info 0x0938 0x092a 0 0x7f00 0
    ∷ info 0x0a39 0x0a28 0 0x8000 0
    ∷ info 0x0b30 0x0b29 0 0x8100 0
    ∷ info 0x0c2d 0x0c5f 0x0c1f 0x8200 0
    ∷ info 0x0d3d 0x0d2b 0 0x8300 0
    ∷ info 0x0e08 0x0e08 0x0e7f 0 0
    ∷ info 0x0f09 0x0f00 0 0 0
    ∷ info 0x1071 0x1051 0x1011 0x1000 0x40
    ∷ info 0x1177 0x1157 0x1117 0x1100 0x40
    ∷ info 0x1265 0x1245 0x1205 0x1200 0x40
    ∷ info 0x1372 0x1352 0x1312 0x1300 0x40
    ∷ info 0x1474 0x1454 0x1414 0x1400 0x40
    ∷ info 0x1579 0x1559 0x1519 0x1500 0x40
    ∷ info 0x1675 0x1655 0x1615 0x1600 0x40
    ∷ info 0x1769 0x1749 0x1709 0x1700 0x40
    ∷ info 0x186f 0x184f 0x180f 0x1800 0x40
    ∷ info 0x1970 0x1950 0x1910 0x1900 0x40
    ∷ info 0x1a5b 0x1a7b 0x1a1b 0 0
    ∷ info 0x1b5d 0x1b7d 0x1b1d 0 0
    ∷ info 0x1c0d 0x1c0d 0x1c0a 0 0
    ∷ info 0 0 0 0 0
    ∷ info 0x1e61 0x1e41 0x1e01 0x1e00 0x40
    ∷ info 0x1f73 0x1f53 0x1f13 0x1f00 0x40
    ∷ info 0x2064 0x2044 0x2004 0x2000 0x40
    ∷ info 0x2166 0x2146 0x2106 0x2100 0x40
    ∷ info 0x2267 0x2247 0x2207 0x2200 0x40
    ∷ info 0x2368 0x2348 0x2308 0x2300 0x40
    ∷ info 0x246a 0x244a 0x240a 0x2400 0x40
    ∷ info 0x256b 0x254b 0x250b 0x2500 0x40
    ∷ info 0x266c 0x264c 0x260c 0x2600 0x40
    ∷ info 0x273b 0x273a 0 0 0
    ∷ info 0x2827 0x2822 0 0 0
    ∷ info 0x2960 0x297e 0 0 0
    ∷ info 0 0 0 0 0
    ∷ info 0x2b5c 0x2b7c 0x2b1c 0 0
    ∷ info 0x2c7a 0x2c5a 0x2c1a 0x2c00 0x40
    ∷ info 0x2d78 0x2d58 0x2d18 0x2d00 0x40
    ∷ info 0x2e63 0x2e43 0x2e03 0x2e00 0x40
    ∷ info 0x2f76 0x2f56 0x2f16 0x2f00 0x40
    ∷ info 0x3062 0x3042 0x3002 0x3000 0x40
    ∷ info 0x316e 0x314e 0x310e 0x3100 0x40
    ∷ info 0x326d 0x324d 0x320d 0x3200 0x40
    ∷ info 0x332c 0x333c 0 0 0
    ∷ info 0x342e 0x343e 0 0 0
    ∷ info 0x352f 0x353f 0 0 0
    ∷ info 0 0 0 0 0
    ∷ info 0x372a 0x372a 0 0 0
    ∷ info 0 0 0 0 0
    ∷ info 0x3920 0x3920 0x3920 0x3920 0
    ∷ info 0 0 0 0 0
    ∷ info 0x3b00 0x5400 0x5e00 0x6800 0
    ∷ info 0x3c00 0x5500 0x5f00 0x6900 0
    ∷ info 0x3d00 0x5600 0x6000 0x6a00 0
    ∷ info 0x3e00 0x5700 0x6100 0x6b00 0
    ∷ info 0x3f00 0x5800 0x6200 0x6c00 0
    ∷ info 0x4000 0x5900 0x6300 0x6d00 0
    ∷ info 0x4100 0x5a00 0x6400 0x6e00 0
    ∷ info 0x4200 0x5b00 0x6500 0x6f00 0
    ∷ info 0x4300 0x5c00 0x6600 0x7000 0
    ∷ info 0x4400 0x5d00 0x6700 0x7100 0
    ∷ info 0 0 0 0 0
    ∷ info 0 0 0 0 0
    ∷ info 0x4700 0x4737 0x7700 0 0x20
    ∷ info 0x4800 0x4838 0 0 0x20
    ∷ info 0x4900 0x4939 0x8400 0 0x20
    ∷ info 0x4a2d 0x4a2d 0 0 0
    ∷ info 0x4b00 0x4b34 0x7300 0 0x20
    ∷ info 0x4c00 0x4c35 0 0 0x20
    ∷ info 0x4d00 0x4d36 0x7400 0 0x20
    ∷ info 0x4e2b 0x4e2b 0 0 0
    ∷ info 0x4f00 0x4f31 0x7500 0 0x20
    ∷ info 0x5000 0x5032 0 0 0x20
    ∷ info 0x5100 0x5133 0x7600 0 0x20
    ∷ info 0x5200 0x5230 0 0 0x20
    ∷ info 0x5300 0x532e 0 0 0x20
    ∷ info 0 0 0 0 0
    ∷ info 0 0 0 0 0
    ∷ info 0x565c 0x567c 0 0 0
    ∷ info 0x8500 0x8700 0x8900 0x8b00 0
    ∷ info 0x8600 0x8800 0x8a00 0x8c00 0
    ∷ []

-- The three flag bytes, as the local variables of `__process_key`.
pub record KeyFlags : Type 0 where
  pub flags0 : ℕ
  pub flags1 : ℕ
  pub flags2 : ℕ

abbrev pub any_of : ℕ → ℕ → Bool
any_of flags mask = not (bit_and flags mask == 0)

-- `flags & ~mask` of a byte.
abbrev pub clear : ℕ → ℕ → ℕ
clear flags mask = bit_and flags (255 - mask)

-- The cases of the switch for the keys that only change flags; nothing for any other scan code.
unfoldable pub flag_key : ℕ → KeyFlags → Option KeyFlags
flag_key scancode f =
    if scancode == 0x3a
    then some (record f { flags0 = bit_xor f.flags0 0x40; flags1 = bit_or f.flags1 0x40 })
    else if scancode == 0xba
    then some (record f { flags1 = clear f.flags1 0x40 })
    else if scancode == 0x2a
    then some (record f { flags0 = bit_or f.flags0 2 })
    else if scancode == 0xaa
    then some (record f { flags0 = clear f.flags0 2 })
    else if scancode == 0x36
    then some (record f { flags0 = bit_or f.flags0 1 })
    else if scancode == 0xb6
    then some (record f { flags0 = clear f.flags0 1 })
    else if scancode == 0x1d
    then some (
        if any_of f.flags2 2
        then record f { flags0 = bit_or f.flags0 4; flags2 = bit_or f.flags2 4 }
        else record f { flags0 = bit_or f.flags0 4; flags1 = bit_or f.flags1 1 })
    else if scancode == 0x9d
    then some (
        if any_of f.flags2 2
        then record f { flags0 = clear f.flags0 4; flags2 = clear f.flags2 4 }
        else record f { flags0 = clear f.flags0 4; flags1 = clear f.flags1 1 })
    else if scancode == 0x38
    then some (
        if any_of f.flags2 2
        then record f { flags0 = bit_or f.flags0 8; flags2 = bit_or f.flags2 8 }
        else record f { flags0 = bit_or f.flags0 8; flags1 = bit_or f.flags1 2 })
    else if scancode == 0xb8
    then some (
        if any_of f.flags2 2
        then record f { flags0 = clear f.flags0 8; flags2 = clear f.flags2 8 }
        else record f { flags0 = clear f.flags0 8; flags1 = clear f.flags1 2 })
    else if scancode == 0x45
    then some (record f { flags0 = bit_xor f.flags0 0x20; flags1 = bit_or f.flags1 0x20 })
    else if scancode == 0xc5
    then some (record f { flags1 = clear f.flags1 0x20 })
    else if scancode == 0x46
    then some (record f { flags0 = bit_xor f.flags0 0x10; flags1 = bit_or f.flags1 0x10 })
    else if scancode == 0xc6
    then some (record f { flags1 = clear f.flags1 0x10 })
    else none

-- The scan code and the ASCII code that a key stands for under the flags.
unfoldable pub key_codes : ScanInfo → ℕ → KeyFlags → ℕ × ℕ
key_codes i scancode f =
    if any_of f.flags0 8
    then (i.alt / 256, i.alt % 256)
    else if any_of f.flags0 4
    then (i.control / 256, i.control % 256)
    else if any_of f.flags2 2 && (leb 0x47 scancode && leb scancode 0x53)
    then (i.normal / 256, 0xe0)
    else if any_of f.flags0 3
    then (if any_of f.flags0 i.lock_flags
        then (i.normal / 256, i.normal % 256)
        else (i.shift / 256, i.shift % 256))
    else if any_of f.flags0 i.lock_flags
    then (i.shift / 256, i.shift % 256)
    else (i.normal / 256, i.normal % 256)

-- How the switch ends: the function returns, it goes on behind the switch, or the machine is reset.
pub data Ending : Type 0 where
  returns : Bda → Ending
  breaks : KeyFlags → Bda → Ending
  resets : Bda → Ending

-- The default case.
unfoldable pub plain_key : ℕ → KeyFlags → Bda → Ending
unfolding enqueue_key key_codes
plain_key scancode f bda =
    if any_of scancode 0x80
    then breaks f bda
    else if scancode == 0x53 && bit_and f.flags0 0xc == 0xc
    then resets (record bda { soft_reset_flag = 0x1234 })
    else elim (get_elem? scan_to_scanascii scancode) [
      | none ↦ returns bda
      | some i ↦
          let (scan, ascii) = key_codes i scancode f in breaks f (enqueue_key scan ascii bda).1
    ]

unfoldable pub key_switch : ℕ → KeyFlags → Bda → Ending
unfolding flag_key plain_key
key_switch scancode f bda = if scancode == 0x00 then returns bda else elim (flag_key scancode f) [
  | some f' ↦ breaks f' bda
  | none ↦
      if scancode == 0xe0
      then returns (record bda { kbd_flag2 = bit_or f.flags2 2 })
      else if scancode == 0xe1
      then breaks (record f { flags2 = bit_or f.flags2 1 }) bda
      else plain_key scancode f bda
]

-- The data area after a key, or the reset.
pub data Processed : Type 0 where
  done : Bda → Processed
  reset : Bda → Processed

-- What follows the switch.
unfoldable pub store_flags : Ending → Processed
store_flags (returns bda) = done bda
store_flags (breaks f bda) =
    done (record bda { kbd_flag0 = f.flags0; kbd_flag1 = f.flags1; kbd_flag2 = clear f.flags2 2 })
store_flags (resets bda) = reset bda

abbrev pub flags_of : Bda → KeyFlags
flags_of bda = record { flags0 = bda.kbd_flag0; flags1 = bda.kbd_flag1; flags2 = bda.kbd_flag2 }

-- `__process_key`.
unfoldable pub handle_scancode : ℕ → Bda → Processed
unfolding key_switch store_flags
handle_scancode scancode bda =
    if any_of bda.kbd_flag2 1
    then (if bit_and scancode 0x7f == 0x1d
        then done bda
        else done (record bda { kbd_flag2 = clear bda.kbd_flag2 1 }))
    else store_flags (key_switch scancode (flags_of bda) bda)

-- `int15` is what the handlers of interrupt 15h do with `eax` and the data area, and whether they leave
-- the carry flag set.
unfoldable pub process_key : (ℕ → Bda → Bool × ℕ × Bda) → ℕ → Bda → Processed
unfolding handle_scancode
process_key int15 key bda =
    let (carry, eax, bda') = int15 (0x4f * 256 + key) bda in
    if carry then handle_scancode (eax % 256) bda' else done bda'
