-- ===== src/Kbd/Flags.antt =====
-- bios/seabios/src/kbd.c: sequences of scan codes that only change the flags.
use coremu.Common.{
  ℕ, ◌<◌, ◌≡◌, refl, ap, subst, Bool, true, false, not, List, [], ◌∷◌, ◌||◌, ltb, ltb→lt, ◌==◌,
  if◌then◌else◌, if_true, if_false, false_of_not, bit_and,
}
use coremu.Common.Bytes.{all_below, all_below_sound}
use coremu.Kbd.{Bda}
use coremu.Kbd.Keys.{
  any_of, clear, key_switch, store_flags, Processed, done, reset, flags_of, handle_scancode,
}

-- The scan codes of a sequence, one after the other, until a reset.
abbrev pub type_keys : List ℕ → Bda → Processed
type_keys [] bda = done bda
type_keys (k ∷ ks) bda = elim (handle_scancode k bda) [
  | done bda' ↦ type_keys ks bda'
  | reset bda' ↦ reset bda'
]

pub type_keys-done :
    (k : ℕ) (ks : List ℕ) (bda bda' : Bda)
    → handle_scancode k bda ≡ done bda'
    → type_keys (k ∷ ks) bda ≡ type_keys ks bda'
type_keys-done k ks bda bda' e = ap (λ r. elim r [ done b ↦ type_keys ks b | reset b ↦ reset b ]) e

-- The flag bytes are bytes, and the next scan code is not the rest of a pause sequence.
pub record IsPlain (bda : Bda) : Type 0 where
  pub byte0 : bda.kbd_flag0 < 256
  pub byte1 : bda.kbd_flag1 < 256
  pub byte2 : bda.kbd_flag2 < 256
  pub no_e1 : any_of bda.kbd_flag2 1 ≡ false

pub below_256 :
    (f : ℕ → ℕ) (x : ℕ) → all_below 256 (λ y. ltb (f y) 256) ≡ true → x < 256 → f x < 256
below_256 f x t h = ltb→lt (f x) 256 (all_below_sound 256 (λ y. ltb (f y) 256) x t h)

-- A property of the bytes without the bit `m`, by evaluation.
pub unless :
    (m : ℕ) (p : ℕ → Bool) (x : ℕ)
    → all_below 256 (λ y. any_of y m || p y) ≡ true
    → x < 256
    → any_of x m ≡ false
    → p x ≡ true
unless m p x t h e =
    subst (λ b. (b || p x) ≡ true) e (all_below_sound 256 (λ y. any_of y m || p y) x t h)

pub clear_e0-IsPlain :
    (bda : Bda) → IsPlain bda → IsPlain (record bda { kbd_flag2 = clear bda.kbd_flag2 2 })
clear_e0-IsPlain bda p = record {
  byte0 = p.byte0;
  byte1 = p.byte1;
  byte2 = below_256 (λ x. clear x 2) bda.kbd_flag2 refl p.byte2;
  no_e1 =
      false_of_not (any_of (clear bda.kbd_flag2 2) 1)
        (unless 1 (λ x. not (any_of (clear x 2) 1)) bda.kbd_flag2 refl p.byte2 p.no_e1);
}

-- A scan code that does not continue a pause sequence goes through the switch.
pub plain_step :
    (k : ℕ) (bda : Bda)
    → any_of bda.kbd_flag2 1 ≡ false
    → handle_scancode k bda ≡ store_flags (key_switch k (flags_of bda) bda)
unfolding handle_scancode
plain_step k bda e = if_false (any_of bda.kbd_flag2 1) _ _ e

-- One that continues it is dropped, and ends it unless it is 1d or 9d.
pub pause_step :
    (k : ℕ) (bda : Bda)
    → any_of bda.kbd_flag2 1 ≡ true
    → handle_scancode k bda ≡ (
        if bit_and k 0x7f == 0x1d
        then done bda
        else done (record bda { kbd_flag2 = clear bda.kbd_flag2 1 }))
unfolding handle_scancode
pause_step k bda e = if_true (any_of bda.kbd_flag2 1) _ _ e
