-- ===== src/Kbd/Locks.antt =====
-- bios/seabios/src/kbd.c: the lock keys.
use coremu.Common.{ℕ, ◌<◌, ◌≡◌, refl, ap, ap₂, ◌∙◌, false, List, [], ◌∷◌, bit_or, bit_xor}
use coremu.Common.Bytes.{byte_eq}
use coremu.Kbd.{Bda}
use coremu.Kbd.Keys.{any_of, clear, flag_key, key_switch, store_flags, done, handle_scancode}
use coremu.Kbd.Flags.{type_keys, type_keys-done, IsPlain, plain_step, below_256, clear_e0-IsPlain}

pub data LockKey : Type 0 where
  caps_lock : LockKey
  num_lock : LockKey
  scroll_lock : LockKey

-- The scan codes of a lock key when it goes down and up, and its bit in both flag bytes.
abbrev pub press : LockKey → ℕ
press caps_lock = 0x3a
press num_lock = 0x45
press scroll_lock = 0x46

abbrev pub release : LockKey → ℕ
release caps_lock = 0xba
release num_lock = 0xc5
release scroll_lock = 0xc6

abbrev pub lock_bit : LockKey → ℕ
lock_bit caps_lock = 0x40
lock_bit num_lock = 0x20
lock_bit scroll_lock = 0x10

-- The data area after a lock key went down and up.
abbrev pub toggled : LockKey → Bda → Bda
toggled k bda = record bda {
  kbd_flag0 = bit_xor bda.kbd_flag0 (lock_bit k);
  kbd_flag1 = clear bda.kbd_flag1 (lock_bit k);
  kbd_flag2 = clear bda.kbd_flag2 2;
}

pressed : LockKey → Bda → Bda
pressed k bda = record bda {
  kbd_flag0 = bit_xor bda.kbd_flag0 (lock_bit k);
  kbd_flag1 = bit_or bda.kbd_flag1 (lock_bit k);
  kbd_flag2 = clear bda.kbd_flag2 2;
}

lock_down :
    (k : LockKey) (bda : Bda) → IsPlain bda → handle_scancode (press k) bda ≡ done (pressed k bda)
unfolding key_switch store_flags flag_key pressed
lock_down caps_lock bda p = plain_step _ bda p.no_e1
lock_down num_lock bda p = plain_step _ bda p.no_e1
lock_down scroll_lock bda p = plain_step _ bda p.no_e1

lock_up :
    (k : LockKey) (bda : Bda)
    → any_of bda.kbd_flag2 1 ≡ false
    → handle_scancode (release k) bda
      ≡ done (record bda {
        kbd_flag1 = clear bda.kbd_flag1 (lock_bit k);
        kbd_flag2 = clear bda.kbd_flag2 2;
      })
unfolding key_switch store_flags flag_key
lock_up caps_lock bda e = plain_step _ bda e
lock_up num_lock bda e = plain_step _ bda e
lock_up scroll_lock bda e = plain_step _ bda e

clear_bit :
    (k : LockKey) (x : ℕ)
    → x < 256
    → clear (bit_or x (lock_bit k)) (lock_bit k) ≡ clear x (lock_bit k)
clear_bit caps_lock x h = byte_eq (λ x. clear (bit_or x 64) 64) (λ x. clear x 64) x refl h
clear_bit num_lock x h = byte_eq (λ x. clear (bit_or x 32) 32) (λ x. clear x 32) x refl h
clear_bit scroll_lock x h = byte_eq (λ x. clear (bit_or x 16) 16) (λ x. clear x 16) x refl h

clear_e0_twice : (x : ℕ) → x < 256 → clear (clear x 2) 2 ≡ clear x 2
clear_e0_twice x h = byte_eq (λ x. clear (clear x 2) 2) (λ x. clear x 2) x refl h

lock_once :
    (k : LockKey) (ks : List ℕ) (bda : Bda)
    → IsPlain bda
    → type_keys (press k ∷ release k ∷ ks) bda ≡ type_keys ks (toggled k bda)
unfolding pressed
lock_once k ks bda p =
    type_keys-done (press k) (release k ∷ ks) bda (pressed k bda) (lock_down k bda p)
    ∙ (type_keys-done (release k) ks (pressed k bda) _
          (lock_up k (pressed k bda) (clear_e0-IsPlain bda p).no_e1)
        ∙ ap₂ (λ x y. type_keys ks (record (toggled k bda) { kbd_flag1 = x; kbd_flag2 = y }))
            (clear_bit k bda.kbd_flag1 p.byte1) (clear_e0_twice bda.kbd_flag2 p.byte2))

toggled-IsPlain : (k : LockKey) (bda : Bda) → IsPlain bda → IsPlain (toggled k bda)
toggled-IsPlain k bda p = record {
  byte0 = small0 k;
  byte1 = small1 k;
  byte2 = (clear_e0-IsPlain bda p).byte2;
  no_e1 = (clear_e0-IsPlain bda p).no_e1;
}
  where
    small0 : (k : LockKey) → bit_xor bda.kbd_flag0 (lock_bit k) < 256
    small0 caps_lock = below_256 (λ x. bit_xor x 64) bda.kbd_flag0 refl p.byte0
    small0 num_lock = below_256 (λ x. bit_xor x 32) bda.kbd_flag0 refl p.byte0
    small0 scroll_lock = below_256 (λ x. bit_xor x 16) bda.kbd_flag0 refl p.byte0

    small1 : (k : LockKey) → clear bda.kbd_flag1 (lock_bit k) < 256
    small1 caps_lock = below_256 (λ x. clear x 64) bda.kbd_flag1 refl p.byte1
    small1 num_lock = below_256 (λ x. clear x 32) bda.kbd_flag1 refl p.byte1
    small1 scroll_lock = below_256 (λ x. clear x 16) bda.kbd_flag1 refl p.byte1

xor_twice : (k : LockKey) (x : ℕ) → x < 256 → bit_xor (bit_xor x (lock_bit k)) (lock_bit k) ≡ x
xor_twice caps_lock x h = byte_eq (λ x. bit_xor (bit_xor x 64) 64) (λ x. x) x refl h
xor_twice num_lock x h = byte_eq (λ x. bit_xor (bit_xor x 32) 32) (λ x. x) x refl h
xor_twice scroll_lock x h = byte_eq (λ x. bit_xor (bit_xor x 16) 16) (λ x. x) x refl h

clear_twice :
    (k : LockKey) (x : ℕ)
    → x < 256
    → clear (clear x (lock_bit k)) (lock_bit k) ≡ clear x (lock_bit k)
clear_twice caps_lock x h = byte_eq (λ x. clear (clear x 64) 64) (λ x. clear x 64) x refl h
clear_twice num_lock x h = byte_eq (λ x. clear (clear x 32) 32) (λ x. clear x 32) x refl h
clear_twice scroll_lock x h = byte_eq (λ x. clear (clear x 16) 16) (λ x. clear x 16) x refl h

-- Caps Lock, Num Lock or Scroll Lock, typed once, changes its bit of kbd_flag0 and clears the one that
-- says that it is down; typed twice it gives kbd_flag0 back. Nothing else changes, but that a prefix
-- e0 before it is forgotten.
lock_twice :
    (k : LockKey) (bda : Bda)
    → IsPlain bda
    → (type_keys (press k ∷ release k ∷ []) bda ≡ done (toggled k bda))
      × (type_keys (press k ∷ release k ∷ press k ∷ release k ∷ []) bda
          ≡ done (record bda {
            kbd_flag1 = clear bda.kbd_flag1 (lock_bit k);
            kbd_flag2 = clear bda.kbd_flag2 2;
          }))
lock_twice k bda p = (
  lock_once k [] bda p,
  lock_once k (press k ∷ release k ∷ []) bda p
      ∙ (lock_once k [] (toggled k bda) (toggled-IsPlain k bda p)
          ∙ (ap₂
                (λ x y. done (record bda {
                  kbd_flag0 = x;
                  kbd_flag1 = y;
                  kbd_flag2 = clear (clear bda.kbd_flag2 2) 2;
                }))
                (xor_twice k bda.kbd_flag0 p.byte0) (clear_twice k bda.kbd_flag1 p.byte1)
              ∙ ap
                  (λ x.
                    done
                      (record bda { kbd_flag1 = clear bda.kbd_flag1 (lock_bit k); kbd_flag2 = x }))
                  (clear_e0_twice bda.kbd_flag2 p.byte2))),
)
