-- ===== src/Boot/Tests.antt =====
-- bios/seabios/src/boot.c: a menu and the order behind it.
use coremu.Common.{ℕ, suc, ◌+◌, ◌<◌, ◌≡◌, refl, none, some, [], ◌∷◌, length, get_elem?, arith}
use coremu.Boot.{
  IplEntry, Ipl, entry, boot_setup, add_bev, add_bcv, menu_show, bootmenu, boot_device, do_boot,
}
use coremu.Boot.Menu.{lines_before, bootmenu-first}

-- Three standard entries and a network card; the order is disk, then CD.
abbrev usual : Ipl
usual = record {
  bev = entry 1 0 ∷ entry 2 0 ∷ entry 3 0 ∷ entry 0x80 0xc8000003 ∷ [];
  bcv = [];
  bootorder = 0x32;
  checkfloppysig = 1;
}

-- One floppy, two CDs and two hard disks.
abbrev lines : IplEntry → ℕ
lines ie = menu_show 1 2 2 ie

setup_test : add_bev 0xc800 3 (boot_setup 0 0x32) ≡ usual
unfolding boot_setup add_bev
setup_test = refl

order_test :
    (do_boot 0 usual ≡ some (entry 2 0))
    × (do_boot 1 usual ≡ some (entry 3 0))
    × (do_boot 2 usual ≡ none)
unfolding do_boot boot_device
order_test = (refl, refl, refl)

escape_test : bootmenu lines (0 ∷ 9 ∷ 1 ∷ []) usual ≡ some usual
unfolding bootmenu menu_show
escape_test = refl

bcv_test : length (add_bcv 0xd000 0x10 usual).bcv ≡ 1
unfolding add_bcv
bcv_test = refl

bootmenu-first_example :
    (r : Ipl) × (i : ℕ) × (sub : ℕ) × (ie : IplEntry) × (bootmenu lines (5 ∷ []) usual ≡ some r)
    × (get_elem? usual.bev i ≡ some ie)
    × (sub < lines ie)
    × (lines_before lines usual.bev i + sub + 2 ≡ 5)
    × (do_boot 0 r ≡ some (record ie { subchoice = sub }))
    × (boot_device (suc 1) r ≡ boot_device 1 usual)
unfolding menu_show
bootmenu-first_example =
    bootmenu-first lines usual 5 [] 1 (omega arith) (omega arith) (omega arith) (omega arith)
