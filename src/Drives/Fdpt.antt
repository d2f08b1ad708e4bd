-- ===== src/Drives/Fdpt.antt =====
-- bios/seabios/src/block.c, bios/seabios/src/biosvar.h: the tables of fixed disks.
use coremu.Common.{
  ℕ, ◌+◌, ◌-◌, ◌/◌, ◌%◌, Bool, not, ◌||◌, Option, some, List, [], ◌∷◌, ◌++◌, length, ltb, leb, ◌==◌,
  if◌then◌else◌,
}
use coremu.Checksum.{checksum_of}
use coremu.Drives.{Drive, config_max_extdrive}

-- `struct fdpt_s`.
pub record Fdpt : Type 0 where
  pub cylinders : ℕ  -- u16
  pub heads : ℕ
  pub a0h_signature : ℕ
  pub phys_sectors : ℕ
  pub precompensation : ℕ  -- u16
  pub reserved : ℕ
  pub drive_control_byte : ℕ
  pub phys_cylinders : ℕ  -- u16
  pub phys_heads : ℕ
  pub landing_zone : ℕ  -- u16
  pub sectors : ℕ
  pub checksum : ℕ

-- The bytes of the packed structure, low bytes first.
abbrev pub fdpt_bytes : Fdpt → List ℕ
fdpt_bytes f =
    f.cylinders % 256
    ∷ f.cylinders / 256 % 256
    ∷ f.heads
    ∷ f.a0h_signature
    ∷ f.phys_sectors
    ∷ f.precompensation % 256
    ∷ f.precompensation / 256 % 256
    ∷ f.reserved
    ∷ f.drive_control_byte
    ∷ f.phys_cylinders % 256
    ∷ f.phys_cylinders / 256 % 256
    ∷ f.phys_heads
    ∷ f.landing_zone % 256
    ∷ f.landing_zone / 256 % 256
    ∷ f.sectors
    ∷ f.checksum
    ∷ []

-- Whether a logical mapping is present.
abbrev pub is_mapped : Drive → Bool
is_mapped drive =
    not (drive.lchs.cylinders == drive.pchs.cylinders)
    || (not (drive.lchs.heads == drive.pchs.heads) || not (drive.lchs.spt == drive.pchs.spt))

-- The fields that every table has; those of one byte are cut.
abbrev pub basic_fdpt : Drive → Fdpt → Fdpt
basic_fdpt drive fdpt = record fdpt {
  precompensation = 0xffff;
  drive_control_byte = 0xc0 + (if ltb 8 drive.pchs.heads then 8 else 0);
  landing_zone = drive.pchs.cylinders;
  cylinders = drive.lchs.cylinders;
  heads = drive.lchs.heads % 256;
  sectors = drive.lchs.spt % 256;
}

abbrev pub physical_fdpt : Drive → Fdpt → Fdpt
physical_fdpt drive fdpt = record fdpt {
  phys_cylinders = drive.pchs.cylinders;
  phys_heads = drive.pchs.heads % 256;
  phys_sectors = drive.pchs.spt % 256;
  a0h_signature = 0xa0;
}

abbrev pub checked_fdpt : Fdpt → Fdpt
checked_fdpt fdpt = record fdpt {
  checksum = (fdpt.checksum + (256 - checksum_of (fdpt_bytes fdpt))) % 256;
}

unfoldable pub filled : Drive → Fdpt → Fdpt
unfolding checksum_of
filled drive fdpt =
    if is_mapped drive
    then checked_fdpt (physical_fdpt drive (basic_fdpt drive fdpt))
    else basic_fdpt drive fdpt

-- The hard disks up to the count in the BIOS data area, the two tables of the EBDA, and the vectors 41h
-- and 46h once they are set: a segment and an offset.
pub record HdMap : Type 0 where
  pub hds : List Drive
  pub fdpt0 : Fdpt
  pub fdpt1 : Fdpt
  pub vector_41 : Option (ℕ × ℕ)
  pub vector_46 : Option (ℕ × ℕ)

-- `offsetof` of the tables.
abbrev pub fdpt0_offset : ℕ
fdpt0_offset = 0x3d

abbrev pub fdpt1_offset : ℕ
fdpt1_offset = 0x4d

unfoldable pub fill_fdpt : ℕ → Drive → ℕ → HdMap → HdMap
unfolding filled
fill_fdpt ebda_seg drive hdid hdmap =
    if ltb 1 hdid
    then hdmap
    else if hdid == 0
    then record hdmap {
      fdpt0 = filled drive hdmap.fdpt0;
      vector_41 = some (ebda_seg, fdpt0_offset);
    }
    else record hdmap {
      fdpt1 = filled drive hdmap.fdpt1;
      vector_46 = some (ebda_seg, fdpt1_offset);
    }

unfoldable pub map_hd_drive : ℕ → HdMap → Drive → HdMap
unfolding fill_fdpt
map_hd_drive ebda_seg hdmap drive =
    let hdcount = length hdmap.hds in
    if leb config_max_extdrive hdcount
    then hdmap
    else fill_fdpt ebda_seg drive hdcount (record hdmap { hds = hdmap.hds ++ (drive ∷ []) })
