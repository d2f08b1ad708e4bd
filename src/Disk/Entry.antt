-- ===== src/Disk/Entry.antt =====
-- bios/seabios/src/disk.c: the entry points of interrupt 13h, which find the drive. The service of the
-- emulation, `cdemu_134b`, and the end of interrupt of the second controller are arguments.
use coremu.Common.{
  ℕ, ◌+◌, ◌-◌, ◌/◌, ◌%◌, Bool, true, false, ◌&&◌, List, Option, none, some, ltb, leb, ◌==◌,
  if◌then◌else◌, bit_xor,
}
use coremu.Drives.{Drive, get_drive}
use coremu.Clock.Services.{Registers}
use coremu.Disk.Tables.{AtaDrive}
use coremu.Disk.{
  DiskOp, Disks, extstart_hd, extstart_cd, disk_ret_eparam, Outcome, disk_ret,
  disk_ret_unimplemented,
}
use coremu.Disk.Services.{disk_13, floppy_13}

-- `Drives.idmap`.
pub record IdMaps : Type 0 where
  pub floppies : List Drive
  pub hds : List Drive
  pub cds : List Drive

unfoldable pub handle_76 : {W : Type 0} → (W → W) → Disks → W → Disks × W
handle_76 eoi_pic2 s w = (record s { disk_interrupt_flag = 0xff }, eoi_pic2 w)

module _ {W : Type 0} (send_disk_op : DiskOp → W → ℕ × ℕ × W) (eject : Registers → Bool)
    (atadrive : Drive → AtaDrive) (ebda_seg dpte_at : ℕ) (junk : DiskOp) (table2 : ℕ)
    (idmap : IdMaps) where
  abbrev pub on_drive : Bool → Drive → Registers → Disks → W → Outcome W
  on_drive emulated drive =
      disk_13 send_disk_op eject (atadrive drive) ebda_seg dpte_at emulated drive junk table2

  abbrev pub on_floppy : Drive → Registers → Disks → W → Outcome W
  on_floppy drive =
      floppy_13 send_disk_op eject (atadrive drive) ebda_seg dpte_at false drive junk table2

  abbrev pub with_drive : Option Drive → (Drive → Outcome W) → Registers → Disks → W → Outcome W
  with_drive none act regs s w = disk_ret disk_ret_eparam regs s w
  with_drive (some drive) act regs s w = act drive

  unfoldable pub handle_legacy_disk : ℕ → Registers → Disks → W → Outcome W
  unfolding disk_13 floppy_13 disk_ret get_drive
  handle_legacy_disk extdrive regs s w =
      if ltb extdrive extstart_hd
      then with_drive (get_drive idmap.floppies extdrive) (λ drive. on_floppy drive regs s w) regs s
          w
      else if leb extstart_cd extdrive
      then with_drive (get_drive idmap.cds (extdrive - extstart_cd))
          (λ drive. on_drive false drive regs s w) regs s w
      else with_drive (get_drive idmap.hds (extdrive - extstart_hd))
          (λ drive. on_drive false drive regs s w) regs s w

  abbrev pub handle_40 : Registers → Disks → W → Outcome W
  handle_40 regs s w = handle_legacy_disk regs.dl regs s w

  unfoldable pub handle_13 :
      (Registers → Disks → W → Outcome W) → Drive → Registers → Disks → W → Outcome W
  unfolding handle_legacy_disk
  handle_13 cdemu_134b cdemu_drive regs s w =
      if regs.ah == 0x4b
      then cdemu_134b regs s w
      else if s.cdemu_active == 0
      then handle_legacy_disk regs.dl regs s w
      else if regs.dl == s.cdemu_extdrive
      then if ltb 0x16 regs.ah
        then disk_ret_unimplemented disk_ret_eparam regs s w
        else on_drive true cdemu_drive regs s w
      else if ltb regs.dl extstart_cd && bit_xor s.cdemu_extdrive regs.dl / 128 == 0
      then handle_legacy_disk ((regs.dl + 255) % 256) regs s w
      else handle_legacy_disk regs.dl regs s w
