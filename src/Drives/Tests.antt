-- ===== src/Drives/Tests.antt =====
-- bios/seabios/src/block.c: geometries that are translated and maps that are filled.
use coremu.Common.{ℕ, ◌≤◌, ◌<◌, ◌≡◌, ◌⊎◌, refl, none, some, [], ◌∷◌, length, arith}
use coremu.Drives.{
  Chs, Drive, config_max_extdrive, get_translation, lba_heads, lba_chs, revise, shift_loop,
  translated, get_drive, find_pos, insert_at, add_ordered_drive, map_cd_drive, map_floppy_drive,
}
use coremu.Checksum.{checksum_of}
use coremu.Drives.Fdpt.{Fdpt, fdpt_bytes, HdMap, map_hd_drive}
use coremu.Drives.HardDisks.{IsMapped, map_hd_drive-IsMapped}
use coremu.Drives.Order.{IsOrdered, add_ordered_drive-IsOrdered}

abbrev chs : ℕ → ℕ → ℕ → Chs
chs c h s = record { heads = h; cylinders = c; spt = s }

abbrev drive : ℕ → ℕ → Drive
drive t id = record {
  type = t;
  floppy_type = 4;
  cntl_id = id;
  lchs = chs 0 0 0;
  pchs = chs 16383 16 63;
  sectors = 41943040;
  translation = 0;
  blksize = 512;
}

geometry_test :
    (translated 7 1 (drive 2 0) ≡ some (chs 1024 255 63))
    × (translated 7 2 (drive 2 0) ≡ some (chs 2047 128 63))
    × (translated 7 3 (drive 2 0) ≡ some (chs 1092 240 63))
    × (translated 7 0 (drive 2 0) ≡ some (chs 16383 16 63))
    × (lba_chs 1000000 ≡ chs 992 16 63)
unfolding translated lba_chs lba_heads revise shift_loop
geometry_test = (refl, refl, refl, refl, refl)

translation_test :
    (get_translation (λ i. 0xe4) (drive 2 2) ≡ 2)
    × (get_translation (λ i. 0) (drive 6 0) ≡ 1)
    × (get_translation (λ i. 0) (record (drive 6 0) { pchs = chs 1000 8 63 }) ≡ 0)
unfolding get_translation
translation_test = (refl, refl, refl)

order_test :
    add_ordered_drive (drive 2 1 ∷ drive 6 0 ∷ []) (drive 2 3)
    ≡ drive 2 1 ∷ drive 2 3 ∷ drive 6 0 ∷ []
unfolding add_ordered_drive find_pos
order_test = refl

add_ordered_drive-IsOrdered_example :
    let ds = drive 2 1 ∷ drive 6 0 ∷ [] in
    ((config_max_extdrive ≤ 2) × (add_ordered_drive ds (drive 2 3) ≡ ds))
    ⊎ ((2 < config_max_extdrive)
        × (p : ℕ) × (p ≤ 2)
        × (add_ordered_drive ds (drive 2 3) ≡ insert_at p (drive 2 3) ds)
        × IsOrdered 0 (insert_at p (drive 2 3) ds))
add_ordered_drive-IsOrdered_example =
    add_ordered_drive-IsOrdered (drive 2 1 ∷ drive 6 0 ∷ []) (drive 2 3)
      (omega arith, omega arith, (omega arith, omega arith, tt)) (omega arith)

maps_test :
    let maps =
      map_floppy_drive
        (map_floppy_drive
          (record { floppies = []; cds = []; equipment_list_flags = 0; floppy_harddisk_info = 0 })
          (drive 1 0))
        (drive 1 1) in
    (maps.equipment_list_flags ≡ 0x41)
    × (maps.floppy_harddisk_info ≡ 0x77)
    × (get_drive maps.floppies 1 ≡ some (drive 1 1))
    × (get_drive maps.floppies 16 ≡ none)
    × (length (map_cd_drive maps (drive 3 0)).cds ≡ 1)
unfolding map_floppy_drive map_cd_drive get_drive add_ordered_drive find_pos
maps_test = (refl, refl, refl, refl, refl)

abbrev empty_table : Fdpt
empty_table = record {
  cylinders = 0;
  heads = 0;
  a0h_signature = 0;
  phys_sectors = 0;
  precompensation = 0;
  reserved = 0;
  drive_control_byte = 0;
  phys_cylinders = 0;
  phys_heads = 0;
  landing_zone = 0;
  sectors = 0;
  checksum = 0;
}

abbrev no_disks : HdMap
no_disks = record {
  hds = [];
  fdpt0 = empty_table;
  fdpt1 = empty_table;
  vector_41 = none;
  vector_46 = none;
}

abbrev mapped_disk : Drive
mapped_disk = record (drive 2 0) { lchs = chs 1024 255 63 }

disk_test :
    let r = map_hd_drive 0x9fc0 (map_hd_drive 0x9fc0 no_disks mapped_disk) (drive 2 1) in
    (r.fdpt0.checksum ≡ 141)
    × (checksum_of (fdpt_bytes r.fdpt0) ≡ 0)
    × (r.vector_46 ≡ some (0x9fc0, 0x4d))
    × (length r.hds ≡ 2)
unfolding map_hd_drive checksum_of
disk_test = (refl, refl, refl, refl)

map_hd_drive-IsMapped_example :
    IsMapped 0x9fc0 no_disks mapped_disk (map_hd_drive 0x9fc0 no_disks mapped_disk)
map_hd_drive-IsMapped_example = map_hd_drive-IsMapped 0x9fc0 no_disks mapped_disk
