-- ===== src/Drives.antt =====
-- bios/seabios/src/block.c, bios/seabios/src/disk.h: the geometry of drives and the maps of drives.
pub mod Geometry
pub mod Order
pub mod Fdpt
pub mod HardDisks
mod Tests
use coremu.Common.{
  ℕ, zero, suc, ◌+◌, ◌-◌, ◌*◌, ◌/◌, ◌%◌, ◌^◌, Bool, true, false, not, ◌&&◌, ◌||◌, Option, none,
  some, List, [], ◌∷◌, length, get_elem?, ltb, leb, ◌==◌, if◌then◌else◌, bit_or,
}

-- `struct chs_s`; the fields are u16.
pub record Chs : Type 0 where
  pub heads : ℕ
  pub cylinders : ℕ
  pub spt : ℕ

-- The fields of `struct drive_s` that block.c uses.
pub record Drive : Type 0 where
  pub type : ℕ  -- u8
  pub floppy_type : ℕ  -- u8
  pub cntl_id : ℕ  -- u32
  pub lchs : Chs
  pub pchs : Chs
  pub sectors : ℕ  -- u64
  pub translation : ℕ  -- u8
  pub blksize : ℕ  -- u16

abbrev pub dtype_ata : ℕ
dtype_ata = 2

abbrev pub dtype_atapi : ℕ
dtype_atapi = 3

abbrev pub translation_none : ℕ
translation_none = 0

abbrev pub translation_lba : ℕ
translation_lba = 1

abbrev pub translation_large : ℕ
translation_large = 2

abbrev pub translation_rechs : ℕ
translation_rechs = 3

-- `cmos` is what `inb_cmos` reads behind CMOS_BIOS_DISKTRANSFLAG. (It is not a coreboot build.) The
-- product of the cylinders and the heads is an `int`, which is negative from 2^31 on.
unfoldable pub get_translation : (ℕ → ℕ) → Drive → ℕ
get_translation cmos drive =
    let chs = drive.pchs in
    if drive.type == dtype_ata
    then cmos (drive.cntl_id % 256 / 2 / 2) / 2 ^ (2 * (drive.cntl_id % 256 % 4)) % 4
    else if chs.heads == 0
        || (chs.cylinders == 0
            || (chs.spt == 0 || ltb drive.sectors (chs.heads * chs.cylinders * chs.spt)))
    then translation_lba
    else if leb chs.cylinders 1024 && (leb chs.heads 16 && leb chs.spt 63)
    then translation_none
    else if leb (chs.cylinders * chs.heads) 131072 || leb (2 ^ 31) (chs.cylinders * chs.heads)
    then translation_large
    else translation_lba

-- The number of heads for a number of tracks.
unfoldable pub lba_heads : ℕ → ℕ
lba_heads sect =
    let heads = sect / 1024 % 2 ^ 16 in
    if ltb 128 heads
    then 255
    else if ltb 64 heads
    then 128
    else if ltb 32 heads
    then 64
    else if ltb 16 heads
    then 32
    else 16

unfoldable pub lba_chs : ℕ → Chs
unfolding lba_heads
lba_chs sectors =
    let sect = sectors % 2 ^ 32 / 63 in
    if ltb (63 * 255 * 1024) sectors
    then record { heads = 255; cylinders = 1024; spt = 63 }
    else record { heads = lba_heads sect; cylinders = sect / lba_heads sect % 2 ^ 16; spt = 63 }

-- The start of the case TRANSLATION_RECHS.
unfoldable pub revise : Chs → Chs
revise chs =
    let cylinders = if ltb 61439 chs.cylinders then 61439 else chs.cylinders in
    if chs.heads == 16
    then record chs { heads = 15; cylinders = cylinders * 16 / 15 % 2 ^ 16 }
    else chs

-- The loop that halves the cylinders, on fuel.
unfoldable pub shift_loop : ℕ → Chs → Option Chs
shift_loop zero chs = none
shift_loop (suc fuel) chs =
    let halved = record chs { cylinders = chs.cylinders / 2; heads = chs.heads * 2 % 2 ^ 16 } in
    let rest = shift_loop fuel halved in
    if ltb 1024 chs.cylinders
    then (if ltb 127 halved.heads then some halved else rest)
    else some chs

-- The switch of `setup_translation`.
unfoldable pub translated : ℕ → ℕ → Drive → Option Chs
unfolding lba_chs revise shift_loop
translated fuel translation drive =
    if translation == translation_lba
    then some (lba_chs drive.sectors)
    else if translation == translation_rechs
    then shift_loop fuel (revise drive.pchs)
    else if translation == translation_large
    then shift_loop fuel drive.pchs
    else some drive.pchs

-- The end of `setup_translation`, with no more than 1024 cylinders.
abbrev pub store_lchs : Drive → Option Chs → Option Drive
store_lchs drive none = none
store_lchs drive (some chs) = some (record drive {
  lchs = record chs { cylinders = if ltb 1024 chs.cylinders then 1024 else chs.cylinders };
})

unfoldable pub setup_translation : ℕ → (ℕ → ℕ) → Drive → Option Drive
unfolding get_translation translated
setup_translation fuel cmos drive =
    let drive' = record drive { translation = get_translation cmos drive } in
    store_lchs drive' (translated fuel drive'.translation drive')

-- `ARRAY_SIZE(Drives.idmap[0])`.
abbrev pub config_max_extdrive : ℕ
config_max_extdrive = 16

-- `idmap` is the list of the drives up to `*count`.
unfoldable pub get_drive : List Drive → ℕ → Option Drive
get_drive idmap extdriveoffset =
    if leb config_max_extdrive extdriveoffset then none else get_elem? idmap extdriveoffset

abbrev pub precedes : Drive → Drive → Bool
precedes prevdrive drive =
    ltb prevdrive.type drive.type
    || (prevdrive.type == drive.type && ltb prevdrive.cntl_id drive.cntl_id)

-- The loop of `add_ordered_drive`, from position `pos` down.
unfoldable pub find_pos : List Drive → Drive → ℕ → ℕ
find_pos idmap drive zero = zero
find_pos idmap drive (suc prev) =
    let rest = find_pos idmap drive prev in
    elim (get_elem? idmap prev) [
      | none ↦ rest
      | some prevdrive ↦ if precedes prevdrive drive then suc prev else rest
    ]

-- `memmove` of the drives from a position on, and the drive at that position.
abbrev pub insert_at : ℕ → Drive → List Drive → List Drive
insert_at zero drive idmap = drive ∷ idmap
insert_at (suc pos) drive [] = drive ∷ []
insert_at (suc pos) drive (d ∷ ds) = d ∷ insert_at pos drive ds

unfoldable pub add_ordered_drive : List Drive → Drive → List Drive
unfolding find_pos
add_ordered_drive idmap drive =
    if leb config_max_extdrive (length idmap)
    then idmap
    else insert_at (find_pos idmap drive (length idmap)) drive idmap

-- The maps of drives, and the fields of the BIOS data area.
pub record DriveMaps : Type 0 where
  pub floppies : List Drive
  pub cds : List Drive
  pub equipment_list_flags : ℕ
  pub floppy_harddisk_info : ℕ

unfoldable pub map_cd_drive : DriveMaps → Drive → DriveMaps
unfolding add_ordered_drive
map_cd_drive maps drive = record maps { cds = add_ordered_drive maps.cds drive }

unfoldable pub map_floppy_drive : DriveMaps → Drive → DriveMaps
unfolding add_ordered_drive
map_floppy_drive maps drive =
    let floppies' = add_ordered_drive maps.floppies drive in
    let flags = maps.equipment_list_flags in
    if length floppies' == 1
    then record maps {
      floppies = floppies';
      equipment_list_flags = bit_or flags 1;
      floppy_harddisk_info = 7;
    }
    else if leb 2 (length floppies')
    then record maps {
      floppies = floppies';
      equipment_list_flags = bit_or flags 0x41;
      floppy_harddisk_info = 0x77;
    }
    else record maps { floppies = floppies' }
