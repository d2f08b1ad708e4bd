-- ===== src/Boot.antt =====
-- bios/seabios/src/boot.c, bios/seabios/src/boot.h: the entries to boot from and their order.
pub mod Menu
mod Tests
use coremu.Common.{
  ℕ, zero, suc, ◌+◌, ◌-◌, ◌*◌, ◌/◌, ◌%◌, ◌^◌, Bool, true, false, ◌||◌, Option, none, some, List, [],
  ◌∷◌, ◌++◌, length, get_elem?, ltb, leb, ◌==◌, if◌then◌else◌, bit_and, bit_or,
}

-- `struct ipl_entry_s`, without its description.
pub record IplEntry : Type 0 where
  pub type : ℕ
  pub subchoice : ℕ
  pub vector : ℕ

-- `struct ipl_s`; the lists are the entries up to their counts.
pub record Ipl : Type 0 where
  pub bev : List IplEntry
  pub bcv : List IplEntry
  pub bootorder : ℕ  -- u32
  pub checkfloppysig : ℕ

abbrev pub ipl_type_floppy : ℕ
ipl_type_floppy = 1

abbrev pub ipl_type_harddisk : ℕ
ipl_type_harddisk = 2

abbrev pub ipl_type_cdrom : ℕ
ipl_type_cdrom = 3

abbrev pub ipl_type_bev : ℕ
ipl_type_bev = 0x80

abbrev pub bcv_type_external : ℕ
bcv_type_external = 0x80

abbrev pub entry : ℕ → ℕ → IplEntry
entry type vector = record { type = type; subchoice = 0; vector = vector }

-- `flag1` and `flag2` are CMOS_BIOS_BOOTFLAG1 and CMOS_BIOS_BOOTFLAG2. (It is not a coreboot build.)
unfoldable pub boot_setup : ℕ → ℕ → Ipl
boot_setup flag1 flag2 = record {
  bev = entry ipl_type_floppy 0 ∷ entry ipl_type_harddisk 0 ∷ entry ipl_type_cdrom 0 ∷ [];
  bcv = [];
  bootorder = bit_or flag2 (bit_and flag1 0xf0 * 16);
  checkfloppysig = if bit_and flag1 1 == 0 then 1 else 0;
}

-- `ARRAY_SIZE(IPL.bev)` and `ARRAY_SIZE(IPL.bcv)`.
abbrev pub max_entries : ℕ
max_entries = 8

unfoldable pub add_bev : ℕ → ℕ → Ipl → Ipl
add_bev seg bev ipl =
    if leb max_entries (length ipl.bev)
    then ipl
    else record ipl { bev = ipl.bev ++ (entry ipl_type_bev (seg * 2 ^ 16 + bev) ∷ []) }

unfoldable pub add_bcv : ℕ → ℕ → Ipl → Ipl
add_bcv seg ip ipl =
    if leb max_entries (length ipl.bcv)
    then ipl
    else record ipl { bcv = ipl.bcv ++ (entry bcv_type_external (seg * 2 ^ 16 + ip) ∷ []) }

-- The lines that the menu shows for an entry: one for each drive.
unfoldable pub menu_show : ℕ → ℕ → ℕ → IplEntry → ℕ
menu_show floppycount cdcount bcvcount ie =
    if ie.type == ipl_type_floppy
    then floppycount
    else if ie.type == ipl_type_harddisk
    then bcvcount
    else if ie.type == ipl_type_cdrom
    then cdcount
    else 1

abbrev pub subcounts : (IplEntry → ℕ) → List IplEntry → List ℕ
subcounts show [] = []
subcounts show (ie ∷ bev) = show ie ∷ subcounts show bev

abbrev pub menu_end : ℕ → List ℕ → ℕ
menu_end menupos [] = menupos
menu_end menupos (sc ∷ subcount) = menu_end (menupos + sc) subcount

-- The search for the entry of a choice; nothing if it reads past the counts.
unfoldable pub find_entry : ℕ → ℕ → List ℕ → Option (ℕ × ℕ)
find_entry choice bev [] = none
find_entry choice bev (sc ∷ subcount) =
    let rest = find_entry (choice - sc) (suc bev) subcount in
    if ltb sc choice then rest else some (bev, choice - 1)

abbrev pub set_subchoice : ℕ → ℕ → List IplEntry → List IplEntry
set_subchoice bev sub [] = []
set_subchoice zero sub (ie ∷ ies) = record ie { subchoice = sub } ∷ ies
set_subchoice (suc bev) sub (ie ∷ ies) = ie ∷ set_subchoice bev sub ies

-- The low four bits of a shifted order are 0, so that `|` is a sum.
abbrev pub add_choice : Ipl → Option (ℕ × ℕ) → Option Ipl
add_choice ipl none = none
add_choice ipl (some (bev, sub)) = some (record ipl {
  bev = set_subchoice bev sub ipl.bev;
  bootorder = ipl.bootorder * 16 % 2 ^ 32 + (bev + 1);
})

-- The loop that reads the choice. `keys` are the answers of get_keystroke, 0 where no key came; it
-- gives nothing while it waits for more.
unfoldable pub choose : List ℕ → ℕ → List ℕ → Ipl → Option Ipl
unfolding find_entry
choose subcount menupos [] ipl = none
choose subcount menupos (scan_code ∷ keys) ipl =
    let rest = choose subcount menupos keys ipl in
    if scan_code == 1
    then some ipl
    else if ltb scan_code 1 || ltb menupos scan_code
    then rest
    else add_choice ipl (find_entry (scan_code - 1) 0 subcount)

-- The menu behind F12.
unfoldable pub bootmenu : (IplEntry → ℕ) → List ℕ → Ipl → Option Ipl
unfolding choose
bootmenu show keys ipl =
    let subcount = subcounts show ipl.bev in choose subcount (menu_end 1 subcount) keys ipl

-- The place in the table to which `do_boot` gets; `seq_nr` is less than 8.
unfoldable pub boot_device : ℕ → Ipl → ℕ
boot_device seq_nr ipl = (ipl.bootorder / 2 ^ (4 * seq_nr) % 16 + (2 ^ 32 - 1)) % 2 ^ 32

-- The entry that `do_boot` boots from, if there is one.
unfoldable pub do_boot : ℕ → Ipl → Option IplEntry
unfolding boot_device
do_boot seq_nr ipl =
    let bootdev = boot_device seq_nr ipl in
    if leb (length ipl.bev) bootdev then none else get_elem? ipl.bev bootdev
