-- ===== src/Disk/Tests.antt =====
-- bios/seabios/src/disk.c: runs at concrete inputs.
use coremu.Common.{
  ◌-◌, ◌^◌, ℕ, ◌+◌, ◌≤◌, ◌<◌, ◌≡◌, ◌⊎◌, refl, true, false, ◌||◌, List, [], ◌∷◌, some, arith,
}
use coremu.Drives.{Chs, Drive, translated, get_translation, setup_translation, get_drive}
use coremu.Clock.Services.{Registers}
use coremu.Disk.{
  DiskOp, Disks, Outcome, disk_ret, disk_ret_eparam, basic_op, basic_answer, basic_access,
  cylinder_of, sector_of, disk_1308, disk_134500, disk_134501, extended_access, disk_1345,
}
use coremu.Disk.Access.{
  IsInside, Reaches, bad_count, bad_sector, basic_access-Reaches, basic_access-in_drive,
  disk_1308-last,
}
use coremu.Disk.Tables.{Dpt, AtaDrive}
use coremu.Disk.Parameters.{disk_1348}
use coremu.Disk.Within.{logged}
use coremu.Disk.Entry.{IdMaps, handle_13, handle_legacy_disk}

abbrev chs : ℕ → ℕ → ℕ → Chs
chs c h s = record { heads = h; cylinders = c; spt = s }

abbrev hard_disk : Drive
hard_disk = record {
  type = 2;
  floppy_type = 0;
  cntl_id = 0;
  lchs = chs 1024 255 63;
  pchs = chs 16383 16 63;
  sectors = 41943040;
  translation = 1;
  blksize = 512;
}

abbrev floppy : Drive
floppy = record hard_disk {
  type = 1;
  floppy_type = 4;
  lchs = chs 80 2 18;
  pchs = chs 80 2 18;
  sectors = 2 ^ 64 - 1;
}

abbrev regs : Registers
regs = record {
  ah = 2;
  al = 4;
  bx = 0x7c00;
  ch = 1;
  cl = 2;
  dh = 3;
  dl = 0x80;
  es = 0;
  di = 0;
  cf = true;
}

abbrev table : Dpt
table = record {
  size = 66;
  infos = 0;
  cylinders = 0;
  heads = 0;
  spt = 0;
  sector_count = 0;
  blksize = 0;
  dpte_offset = 0;
  dpte_segment = 0;
  key = 0;
  dpi_length = 0;
  reserved1 = 0;
  reserved2 = 0;
  host_bus = [];
  iface_type = [];
  iface_path = 0;
  device_path = 0;
  reserved3 = 0;
  checksum = 0;
}

abbrev state : Disks
state = record {
  floppy_last_status = 0;
  disk_last_status = 7;
  disk_interrupt_flag = 0;
  hdcount = 1;
  floppycount = 1;
  cdrom_locks = λ i. 0;
  cdemu_active = 0;
  cdemu_extdrive = 0;
  cdemu_media = 0;
  cdemu_lchs = chs 80 2 18;
  ext_lba = 41943040;
  ext_count = 1;
  ext_data = 0;
  dpt = table;
  dpte = record {
    iobase1 = 0;
    iobase2 = 0;
    prefix = 0;
    unused = 0;
    irq = 0;
    blkcount = 0;
    dma = 0;
    pio = 0;
    options = 0;
    reserved = 0;
    revision = 0;
    checksum = 0;
  };
}

abbrev channel : AtaDrive
channel = record { iobase1 = 0x1f0; iobase2 = 0x3f0; irq = 14; pci_bdf = some 9; slave = 0 }

abbrev filled : Outcome (List DiskOp)
filled = disk_1348 channel 0x9fc0 0x1b0 hard_disk regs state []

-- For a buffer of 66 bytes the fields up to byte 66 are filled in and the size says 30.
size_told :
    (filled.1.dpt.size ≡ 30)
    × (filled.1.dpt.key ≡ 0xbedd)
    × (filled.1.dpt.iface_path ≡ 0x10100)
    × (filled.1.dpte.options ≡ 0x218)
    × (filled.1.dpte.iobase2 ≡ 0x3f2)
    × (filled.1.dpt.infos ≡ 0)
unfolding disk_1348 disk_ret
size_told = (refl, refl, refl, refl, refl, refl)

-- A driver that transfers what it is asked for.
abbrev obey : DiskOp → List DiskOp → ℕ × ℕ
obey op log = (0, op.count)

abbrev junk : DiskOp
junk = record { lba = 0; buf_fl = 0; drive_g = hard_disk; count = 0; command = 0 }

abbrev maps : IdMaps
maps = record { floppies = floppy ∷ []; hds = hard_disk ∷ []; cds = [] }

read_test :
    let o = basic_access (logged obey) false hard_disk 2 regs state [] in
    (o.0.cf ≡ false)
    × (o.0.ah ≡ 0)
    × (o.0.al ≡ 4)
    × (o.1.disk_last_status ≡ 0)
    × (o.2
        ≡ record { lba = 16255; buf_fl = 0x7c00; drive_g = hard_disk; count = 4; command = 2 } ∷ [])
unfolding basic_access disk_ret
read_test = (refl, refl, refl, refl, refl)

past_the_end :
    let o = extended_access (logged obey) false hard_disk 2 regs state [] in
    (o.0.cf ≡ true) × (o.0.ah ≡ 1) × (o.2 ≡ [])
unfolding extended_access disk_ret
past_the_end = (refl, refl, refl)

-- A disk of one cylinder: the last cylinder but one is 65535, of which the registers have ten bits.
one_cylinder :
    cylinder_of
      (disk_1308 (logged obey) false (record hard_disk { lchs = chs 1 2 18 }) 0 regs state []).0
    ≡ 1023
unfolding disk_1308 disk_ret
one_cylinder = refl

-- A lock, an unlock and one unlock too many.
lock_test :
    let cd = record regs { dl = 0xe1; al = 0 } in
    let locked = disk_1345 (logged obey) false hard_disk cd state [] in
    let unlocked = disk_1345 (logged obey) false hard_disk (record cd { al = 1 }) locked.1 [] in
    (locked.1.cdrom_locks 1 ≡ 1)
    × (unlocked.1.cdrom_locks 1 ≡ 0)
    × ((disk_1345 (logged obey) false hard_disk (record cd { al = 1 }) unlocked.1 []).0.ah ≡ 0xb0)
unfolding disk_1345 disk_134500 disk_134501 disk_ret
lock_test = (refl, refl, refl)

missing_drive :
    (handle_13
      (logged obey)
      (λ r. false)
      (λ d. channel)
      0x9fc0
      0x1b0
      junk
      0
      maps
      (λ r s w. (r, s, w))
      floppy
      (record regs { dl = 0x81 })
      state
      []).0.ah
    ≡ 1
unfolding handle_13 handle_legacy_disk get_drive disk_ret
missing_drive = refl

basic_access-Reaches_example :
    let op = basic_op (logged obey) false hard_disk 2 regs state in
    let done = basic_access (logged obey) false hard_disk 2 regs state [] in
    (((bad_count regs || bad_sector hard_disk.lchs regs) ≡ true)
      × (done ≡ disk_ret disk_ret_eparam regs state []))
    ⊎ (IsInside hard_disk.lchs regs
        × (0 < 4)
        × (4 ≤ 128)
        × (done ≡ basic_answer regs state (logged obey op []))
        × Reaches hard_disk.lchs regs op.lba)
basic_access-Reaches_example =
    basic_access-Reaches (logged obey) false hard_disk 2 regs state [] (omega arith)

abbrev translated_disk : Drive
translated_disk = record hard_disk { lchs = chs 1024 255 63; translation = 1 }

basic_access-in_drive_example :
    (basic_access (logged obey) false translated_disk 2 regs state []
      ≡ disk_ret disk_ret_eparam regs state [])
    ⊎ ((basic_access (logged obey) false translated_disk 2 regs state []
          ≡ basic_answer regs state
              (logged obey (basic_op (logged obey) false translated_disk 2 regs state) []))
        × ((basic_op (logged obey) false translated_disk 2 regs state).lba < 41943040))
unfolding setup_translation translated get_translation
basic_access-in_drive_example =
    basic_access-in_drive (logged obey) (λ i. 1)
      (record hard_disk { lchs = chs 0 0 0; translation = 0 }) translated_disk 2 regs state []
      (omega arith) (omega arith) (omega arith) refl

disk_1308-last_example :
    let r = (disk_1308 (logged obey) false hard_disk 0 regs state []).0 in
    (cylinder_of r + 2 ≡ 1024)
    × (r.dh + 1 ≡ 255)
    × (sector_of r ≡ 63)
    × ((bad_count (record r { al = 1 }) || bad_sector hard_disk.lchs r) ≡ false)
disk_1308-last_example =
    disk_1308-last (logged obey) false hard_disk 0 regs state [] (omega arith) (omega arith)
      (omega arith) (omega arith) (omega arith) (omega arith) (omega arith) (omega arith)
