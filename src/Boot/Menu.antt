-- ===== src/Boot/Menu.antt =====
-- bios/seabios/src/boot.c: what is chosen in the menu is booted first.
use coremu.Common.{
  ℕ, zero, suc, ◌+◌, ◌-◌, ◌*◌, ◌/◌, ◌%◌, ◌^◌, ◌≤◌, ◌<◌, ◌≡◌, refl, ap, ◌∙◌, ◌||◌, Option, none,
  some, List, [], ◌∷◌, length, get_elem?, ltb, ltb→lt, leb, ◌==◌, if_true, if_false, Bool-cases,
  inl, inr, arith,
}
use coremu.Boot.{
  IplEntry, Ipl, max_entries, subcounts, menu_end, find_entry, set_subchoice, add_choice, choose,
  bootmenu, boot_device, do_boot,
}

-- The lines that the menu shows for the entries before a place.
pub lines_before : (IplEntry → ℕ) → List IplEntry → ℕ → ℕ
lines_before show [] i = 0
lines_before show (ie ∷ bev) zero = 0
lines_before show (ie ∷ bev) (suc i) = show ie + lines_before show bev i

all_lines : (IplEntry → ℕ) → List IplEntry → ℕ
all_lines show [] = 0
all_lines show (ie ∷ bev) = show ie + all_lines show bev

menu_end_lem :
    (show : IplEntry → ℕ) (pos : ℕ) (bev : List IplEntry)
    → menu_end pos (subcounts show bev) ≡ pos + all_lines show bev
unfolding all_lines
menu_end_lem show pos [] = omega arith
menu_end_lem show pos (ie ∷ bev) = menu_end_lem show (pos + show ie) bev ∙ omega arith

-- The search ends at the entry whose lines hold the choice.
found :
    (show : IplEntry → ℕ) (choice k : ℕ) (bev : List IplEntry)
    → 0 < choice
    → choice ≤ all_lines show bev
    → (i : ℕ) × (sub : ℕ) × (ie : IplEntry) × (find_entry choice k (subcounts show bev)
        ≡ some (k + i, sub))
      × (get_elem? bev i ≡ some ie)
      × (i < length bev)
      × (sub < show ie)
      × (lines_before show bev i + sub + 1 ≡ choice)
unfolding find_entry all_lines lines_before
found show choice k [] h l = absurd (omega (arith, h, l))
found show choice k (ie ∷ bev) h l = elim (Bool-cases (ltb (show ie) choice)) [
  | inl b ↦
      let c = ltb→lt (show ie) choice b in
      let (i, sub, e, f, g, w, s, t) =
        found show (choice - show ie) (suc k) bev (omega (arith, c)) (omega (arith, l)) in
      (
        suc i,
        sub,
        e,
        if_true (ltb (show ie) choice) _ _ b ∙ (f ∙ ap (λ j. some (j, sub)) (omega arith)),
        g,
        omega (arith, w),
        s,
        omega (arith, t, c),
      )
  | inr b ↦ (
    zero,
    choice - 1,
    ie,
    if_false (ltb (show ie) choice) _ _ b ∙ ap (λ j. some (j, choice - 1)) (omega arith),
    refl,
    omega arith,
    ground (arith, b, h),
    omega (arith, h),
  )
]

chosen :
    (i sub : ℕ) (bev : List IplEntry) {ie : IplEntry}
    → get_elem? bev i ≡ some ie
    → get_elem? (set_subchoice i sub bev) i ≡ some (record ie { subchoice = sub })
chosen i sub [] e = cc
chosen zero sub (x ∷ bev) e = ap (with_sub sub) e
  where
    with_sub : ℕ → Option IplEntry → Option IplEntry
    with_sub sub none = none
    with_sub sub (some ie) = some (record ie { subchoice = sub })
chosen (suc i) sub (x ∷ bev) e = chosen i sub bev e

length-set_subchoice :
    (i sub : ℕ) (bev : List IplEntry) → length (set_subchoice i sub bev) ≡ length bev
length-set_subchoice i sub [] = refl
length-set_subchoice zero sub (x ∷ bev) = refl
length-set_subchoice (suc i) sub (x ∷ bev) = ap suc (length-set_subchoice i sub bev)

-- The order behind a choice.
later :
    (order c seq : ℕ)
    → c < 16
    → seq < 7
    → (order * 16 % 2 ^ 32 + c) / 2 ^ (4 * suc seq) % 16 ≡ order / 2 ^ (4 * seq) % 16
later order c zero h l = omega (arith, h)
later order c (suc zero) h l = omega (arith, h)
later order c (suc (suc zero)) h l = omega (arith, h)
later order c (suc (suc (suc zero))) h l = omega (arith, h)
later order c (suc (suc (suc (suc zero)))) h l = omega (arith, h)
later order c (suc (suc (suc (suc (suc zero))))) h l = omega (arith, h)
later order c (suc (suc (suc (suc (suc (suc zero)))))) h l = omega (arith, h)
later order c (suc (suc (suc (suc (suc (suc (suc seq))))))) h l = absurd (omega (arith, l))

boots :
    (seq_nr d : ℕ) (r : Ipl) {ie : IplEntry}
    → boot_device seq_nr r ≡ d
    → d < length r.bev
    → get_elem? r.bev d ≡ some ie
    → do_boot seq_nr r ≡ some ie
unfolding do_boot
boots seq_nr d r e l g =
    if_false (leb (length r.bev) (boot_device seq_nr r)) _ _ (ground (arith, e, l))
    ∙ (ap (get_elem? r.bev) e ∙ g)

-- A choice in the menu of a line that it shows, of at most eight entries, is taken: the entry that is
-- booted first is the one to which the line belongs, with the number of the line among those of the
-- entry, and what was in the order before comes one place later, up to the seventh place.
pub bootmenu-first :
    (show : IplEntry → ℕ) (ipl : Ipl) (scan_code : ℕ) (keys : List ℕ) (seq_nr : ℕ)
    → length ipl.bev ≤ max_entries
    → 1 < scan_code
    → scan_code ≤ menu_end 1 (subcounts show ipl.bev)
    → seq_nr < 7
    → (r : Ipl) × (i : ℕ) × (sub : ℕ) × (ie : IplEntry) × (bootmenu show (scan_code ∷ keys) ipl
        ≡ some r)
      × (get_elem? ipl.bev i ≡ some ie)
      × (sub < show ie)
      × (lines_before show ipl.bev i + sub + 2 ≡ scan_code)
      × (do_boot 0 r ≡ some (record ie { subchoice = sub }))
      × (boot_device (suc seq_nr) r ≡ boot_device seq_nr ipl)
unfolding bootmenu choose do_boot boot_device
bootmenu-first show ipl scan_code keys seq_nr small low high seven =
    let lines = menu_end_lem show 1 ipl.bev in
    let (i, sub, ie, f, g, w, s, t) =
      found show (scan_code - 1) 0 ipl.bev (omega (arith, low)) (omega (arith, high, lines)) in
    let r : Ipl = record ipl {
      bev = set_subchoice i sub ipl.bev;
      bootorder = ipl.bootorder * 16 % 2 ^ 32 + (i + 1);
    } in
    let device : boot_device 0 r ≡ i = omega (arith, w, small) in
    (
      r,
      i,
      sub,
      ie,
      if_false (scan_code == 1) _ _ (ground (arith, low))
          ∙ (if_false (ltb scan_code 1 || ltb (menu_end 1 (subcounts show ipl.bev)) scan_code) _ _
                (ground (arith, low, high))
              ∙ (ap (add_choice ipl) f ∙ ap (λ j. add_choice ipl (some (j, sub))) (omega arith))),
      g,
      s,
      omega (arith, t, low),
      boots 0 i r device (omega (arith, w, length-set_subchoice i sub ipl.bev))
          (chosen i sub ipl.bev g),
      ap (λ d. (d + (2 ^ 32 - 1)) % 2 ^ 32)
          (later ipl.bootorder (i + 1) seq_nr (omega (arith, w, small)) seven),
    )
