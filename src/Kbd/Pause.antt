-- ===== src/Kbd/Pause.antt =====
-- bios/seabios/src/kbd.c: the scan codes of the Pause key.
use coremu.Common.{
  ℕ, ◌<◌, ◌≡◌, refl, ap, ◌∙◌, true, false, List, [], ◌∷◌, ◌==◌, ==_iff, if_true, if_false, bit_and,
  bit_or,
}
use coremu.Common.Bytes.{all_below_sound, byte_eq}
use coremu.Kbd.{Bda}
use coremu.Kbd.Keys.{any_of, clear, flag_key, key_switch, plain_key, store_flags, done}
use coremu.Kbd.Flags.{
  type_keys, type_keys-done, IsPlain, plain_step, pause_step, unless, clear_e0-IsPlain,
}

abbrev e1_flag : ℕ → ℕ
e1_flag x = clear (bit_or x 1) 2

abbrev pub pause_key : List ℕ
pause_key = 0xe1 ∷ 0x1d ∷ 0x45 ∷ 0xe1 ∷ 0x9d ∷ 0xc5 ∷ []

half_pause :
    (k l : ℕ) (ks : List ℕ) (bda : Bda)
    → IsPlain bda
    → (bit_and k 0x7f == 0x1d) ≡ true
    → (bit_and l 0x7f == 0x1d) ≡ false
    → type_keys (0xe1 ∷ k ∷ l ∷ ks) bda
      ≡ type_keys ks (record bda { kbd_flag2 = clear (e1_flag bda.kbd_flag2) 1 })
unfolding key_switch store_flags flag_key plain_key
half_pause k l ks bda p hk hl =
    type_keys-done 0xe1 (k ∷ l ∷ ks) bda during (plain_step 0xe1 bda p.no_e1)
    ∙ (type_keys-done k (l ∷ ks) during during
          (pause_step k during waits ∙ if_true (bit_and k 0x7f == 0x1d) _ _ hk)
        ∙ type_keys-done l ks during _
            (pause_step l during waits ∙ if_false (bit_and l 0x7f == 0x1d) _ _ hl))
  where
    during : Bda
    during = record bda { kbd_flag2 = e1_flag bda.kbd_flag2 }

    waits : any_of (e1_flag bda.kbd_flag2) 1 ≡ true
    waits = all_below_sound 256 (λ x. any_of (e1_flag x) 1) bda.kbd_flag2 refl p.byte2

after_pause : (x : ℕ) → x < 256 → any_of x 1 ≡ false → clear (e1_flag x) 1 ≡ clear x 2
after_pause x h e = (==_iff _ _).0 (unless 1 (λ y. clear (e1_flag y) 1 == clear y 2) x refl h e)

-- The scan codes of the Pause key put no key into the buffer and change no flag but the one of a
-- prefix e0 before them, although 1d and 45 are also those of Ctrl and Num Lock.
pause_key-ignored :
    (bda : Bda)
    → IsPlain bda
    → type_keys pause_key bda ≡ done (record bda { kbd_flag2 = clear bda.kbd_flag2 2 })
pause_key-ignored bda p =
    half_pause 0x1d 0x45 (0xe1 ∷ 0x9d ∷ 0xc5 ∷ []) bda p refl refl
    ∙ (ap (λ x. type_keys (0xe1 ∷ 0x9d ∷ 0xc5 ∷ []) (record bda { kbd_flag2 = x })) once
        ∙ (half_pause 0x9d 0xc5 [] between between-IsPlain refl refl
            ∙ ap (λ x. done (record bda { kbd_flag2 = x }))
                (after_pause (clear bda.kbd_flag2 2) between-IsPlain.byte2 between-IsPlain.no_e1
                  ∙ byte_eq (λ x. clear (clear x 2) 2) (λ x. clear x 2) bda.kbd_flag2 refl
                      p.byte2)))
  where
    once : clear (e1_flag bda.kbd_flag2) 1 ≡ clear bda.kbd_flag2 2
    once = after_pause bda.kbd_flag2 p.byte2 p.no_e1

    between : Bda
    between = record bda { kbd_flag2 = clear bda.kbd_flag2 2 }

    between-IsPlain : IsPlain between
    between-IsPlain = clear_e0-IsPlain bda p
