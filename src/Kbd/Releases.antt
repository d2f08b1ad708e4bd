-- ===== src/Kbd/Releases.antt =====
-- bios/seabios/src/kbd.c: what the release of a key can change.
use coremu.Common.{
  ℕ, ◌<◌, ◌≤◌, ◌≡◌, refl, sym, subst, true, false, not, ◌||◌, leb, ◌==◌, if◌then◌else◌, if_true,
  if_both, bit_and, bit_or, arith, Option, none, some,
}
use coremu.Common.Bytes.{all_below_sound}
use coremu.Kbd.{Bda}
use coremu.Kbd.Keys.{
  KeyFlags, any_of, flag_key, plain_key, key_switch, store_flags, breaks, returns, Processed, done,
  reset, flags_of, handle_scancode,
}

-- The keyboard buffer and the lights are as before, and there was no reset.
abbrev pub Quiet : Bda → Processed → Type 0
Quiet bda (done b) =
    (b.bytes ≡ bda.bytes)
    × (b.kbd_buf_head ≡ bda.kbd_buf_head)
    × (b.kbd_buf_tail ≡ bda.kbd_buf_tail)
    × (b.kbd_led ≡ bda.kbd_led)
Quiet bda (reset b) = true ≡ false

high_bit : (k : ℕ) → 128 ≤ k → k < 256 → any_of k 0x80 ≡ true
high_bit k l h =
    ground (arith, l, all_below_sound 256 (λ y. not (leb 128 y) || any_of y 0x80) k refl h)

-- A key that goes up (a scan code from 80 hex on, the prefixes e0 and e1 among them) changes no more
-- than flags: it never puts a key into the buffer or resets the machine.
release-Quiet : (k : ℕ) (bda : Bda) → 128 ≤ k → k < 256 → Quiet bda (handle_scancode k bda)
unfolding handle_scancode key_switch store_flags plain_key
release-Quiet k bda l h =
    if_both (Quiet bda) (any_of bda.kbd_flag2 1) _ _
      (if_both (Quiet bda) (bit_and k 0x7f == 0x1d) _ _ (refl, refl, refl, refl)
        (refl, refl, refl, refl))
      (if_both (λ e. Quiet bda (store_flags e)) (k == 0) _ _ (refl, refl, refl, refl)
        (by_flags (flag_key k (flags_of bda))))
  where
    by_flags :
        (o : Option KeyFlags)
        → Quiet bda (
            store_flags (elim o [
              | some f ↦ breaks f bda
              | none ↦
                  if k == 0xe0
                  then returns (record bda { kbd_flag2 = bit_or bda.kbd_flag2 2 })
                  else if k == 0xe1
                  then breaks (record (flags_of bda) { flags2 = bit_or bda.kbd_flag2 1 }) bda
                  else plain_key k (flags_of bda) bda
            ]))
    by_flags (some f) = (refl, refl, refl, refl)
    by_flags none =
        if_both (λ e. Quiet bda (store_flags e)) (k == 0xe0) _ _ (refl, refl, refl, refl)
          (if_both (λ e. Quiet bda (store_flags e)) (k == 0xe1) _ _ (refl, refl, refl, refl)
            (subst (λ e. Quiet bda (store_flags e))
              (sym (if_true (any_of k 0x80) _ _ (high_bit k l h))) (refl, refl, refl, refl)))
