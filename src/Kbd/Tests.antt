-- ===== src/Kbd/Tests.antt =====
-- bios/seabios/src/kbd.c: keys typed and read.
use coremu.Common.{ℕ, ◌≡◌, refl, true, false, Option, none, some, [], ◌∷◌, arith}
use coremu.Kbd.{
  Bda, Bregs, kbd_setup, enqueue_key, take_key, dequeue_key, handle_1601, handle_160a, handle_1612,
  set_leds, service, handle_16,
}
use coremu.Kbd.Keys.{
  flag_key, plain_key, key_switch, store_flags, handle_scancode, process_key, done, reset,
}
use coremu.Kbd.Ring.{IsValid}
use coremu.Kbd.Queue.{store, read, look, room, found, answer, run, run_spec, run_refines}
use coremu.Kbd.Flags.{type_keys, IsPlain}

abbrev cleared : Bda
cleared = record {
  kbd_flag0 = 0;
  kbd_flag1 = 0;
  kbd_flag2 = 0x10;
  kbd_led = 0;
  kbd_buf_head = 0x1e;
  kbd_buf_tail = 0x1e;
  kbd_buf_start_offset = 0x1e;
  kbd_buf_end_offset = 0x3e;
  soft_reset_flag = 0;
  bytes = λ x. 0;
}

setup_test :
    kbd_setup (record cleared { kbd_buf_head = 0; kbd_buf_tail = 0; kbd_buf_end_offset = 0 })
    ≡ cleared
unfolding kbd_setup
setup_test = refl

-- Two bytes before the end of the buffer.
abbrev near_end : Bda
near_end = record cleared { kbd_buf_head = 0x3c; kbd_buf_tail = 0x3c }

near_end-IsValid : IsValid 16 near_end
near_end-IsValid = record {
  size = refl;
  small = omega arith;
  head_low = omega arith;
  head_high = omega arith;
  tail_low = omega arith;
  tail_high = omega arith;
  head_even = refl;
  tail_even = refl;
}

near_end-IsPlain : IsPlain near_end
near_end-IsPlain = record {
  byte0 = omega arith;
  byte1 = omega arith;
  byte2 = omega arith;
  no_e1 = refl;
}

abbrev no_room : Bda
no_room = record near_end { kbd_buf_tail = 0x3a }

run_test :
    run (store 1 2 ∷ look ∷ store 3 0xf0 ∷ read ∷ read ∷ read ∷ []) near_end
    ≡ room 1
      ∷ found (some (1, 2))
      ∷ room 1
      ∷ found (some (1, 2))
      ∷ found (some (3, 0))
      ∷ found none
      ∷ []
unfolding answer enqueue_key dequeue_key take_key
run_test = refl

full_test : run (store 1 2 ∷ []) no_room ≡ room 0 ∷ []
unfolding answer enqueue_key
full_test = refl

run_refines_example :
    run (store 1 2 ∷ store 3 4 ∷ read ∷ look ∷ []) near_end
    ≡ run_spec 16 (store 1 2 ∷ store 3 4 ∷ read ∷ look ∷ []) []
run_refines_example = run_refines (store 1 2 ∷ store 3 4 ∷ read ∷ look ∷ []) near_end-IsValid

-- The key behind a prefix e0 that is not in the table leaves the prefix behind for the next key.
prefix_test :
    type_keys (0xe0 ∷ 0x5b ∷ 0x1d ∷ []) cleared
    ≡ done (record cleared { kbd_flag0 = 4; kbd_flag2 = 0x14 })
unfolding handle_scancode key_switch store_flags flag_key plain_key
prefix_test = refl

reset_test :
    type_keys (0x1d ∷ 0x38 ∷ 0x53 ∷ []) cleared
    ≡ reset (record cleared { kbd_flag0 = 12; kbd_flag1 = 3; soft_reset_flag = 0x1234 })
unfolding handle_scancode key_switch store_flags flag_key plain_key
reset_test = refl

abbrev quiet_board : ℕ → ℕ × ℕ → Option (ℕ × ℕ)
quiet_board cmd param = some (0xab, 0x83)

abbrev regs : ℕ → Bregs
regs ah = record { ah = ah; al = 0; bx = 0; ch = 0; cl = 0; zf = false }

-- The second interrupt brings the key that the service waits for.
wait_test :
    dequeue_key ((λ b. b) ∷ (λ b. (enqueue_key 5 6 b).1) ∷ []) true false (regs 0) near_end
    ≡ dequeue_key [] true false (regs 0) (enqueue_key 5 6 near_end).1
unfolding dequeue_key enqueue_key take_key
wait_test = refl

service_test :
    (handle_16 quiet_board [] (regs 0x0a) cleared
      ≡ some (record (regs 0x0a) { bx = 0x83ab }, cleared))
    × (handle_16 quiet_board [] (regs 0x01) cleared
        ≡ some (record (regs 0x01) { zf = true }, cleared))
    × (handle_16 quiet_board [] (regs 0x12) (record cleared { kbd_flag0 = 0x40; kbd_flag2 = 0x14 })
        ≡ some (
          record (regs 4) { al = 0x40 },
          record cleared { kbd_flag0 = 0x40; kbd_flag2 = 0x14; kbd_led = 4 },
        ))
unfolding handle_16 service set_leds handle_160a handle_1601 dequeue_key handle_1612
service_test = (refl, refl, refl)

intercept_test :
    (process_key (λ eax b. (false, eax, b)) 0x1e cleared ≡ done cleared)
    × (process_key (λ eax b. (true, eax, b)) 0x1e cleared ≡ handle_scancode 0x1e cleared)
unfolding process_key
intercept_test = (refl, refl)
