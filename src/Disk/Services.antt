-- ===== src/Disk/Services.antt =====
-- bios/seabios/src/disk.c: the services of interrupt 13h and their table. The call of interrupt 15h
-- that ejects a medium is an argument, and so are the channel of an ATA drive, the segment of the EBDA
-- and the place of a table in it.
use coremu.Common.{ℕ, ◌+◌, ◌-◌, ◌*◌, Bool, not, ◌||◌, ltb, leb, ◌==◌, if◌then◌else◌}
use coremu.Drives.{Drive}
use coremu.Clock.Services.{Registers, set_invalid}
use coremu.Disk.Tables.{AtaDrive}
use coremu.Disk.Parameters.{disk_1348}
use coremu.Disk.{
  DiskOp, Disks, extstart_hd, extstart_cd, disk_ret_eparam, Outcome, disk_ret,
  disk_ret_unimplemented, fill_lchs, basic_access, extended_access, disk_1308, disk_1315, disk_1345,
}

abbrev pub cmd_reset : ℕ
cmd_reset = 0

abbrev pub cmd_read : ℕ
cmd_read = 2

abbrev pub cmd_write : ℕ
cmd_write = 3

abbrev pub cmd_verify : ℕ
cmd_verify = 4

abbrev pub cmd_format : ℕ
cmd_format = 5

abbrev pub cmd_seek : ℕ
cmd_seek = 7

abbrev pub cmd_isready : ℕ
cmd_isready = 0x10

-- The answer of the driver to a command that transfers nothing.
abbrev pub answer : {W : Type 0} → Registers → Disks → ℕ × ℕ × W → Outcome W
answer regs s (status, count, w) = disk_ret status regs s w

abbrev pub set_ah : {W : Type 0} → ℕ → Outcome W → Outcome W
set_ah code (regs, s, w) = (record regs { ah = code }, s, w)

module _ {W : Type 0} (send_disk_op : DiskOp → W → ℕ × ℕ × W) (eject : Registers → Bool)
    (ata : AtaDrive) (ebda_seg dpte_at : ℕ) (emulated : Bool) (drive : Drive) where
  -- What `disk_1300` and `disk_1310` send; they leave the other fields of the request as they are.
  abbrev pub bare_op : ℕ → DiskOp → DiskOp
  bare_op command junk = record junk { drive_g = drive; command = command }

  unfoldable pub disk_1301 : Registers → Disks → W → Outcome W
  disk_1301 regs s w =
      let v = if ltb regs.dl extstart_hd then s.floppy_last_status else s.disk_last_status in
      (record regs { ah = v; cf = not (v == 0) }, s, w)

  unfoldable pub disk_1305 : Registers → Disks → W → Outcome W
  unfolding disk_ret
  disk_1305 regs s w =
      let chs = fill_lchs emulated drive s in
      if leb chs.heads regs.dh || (regs.al == 0 || ltb chs.spt regs.al)
      then disk_ret disk_ret_eparam regs s w
      else answer regs s (
          send_disk_op
            (record {
              lba = regs.dh;
              buf_fl = regs.es * 16 + regs.bx;
              drive_g = drive;
              count = regs.al;
              command = cmd_format;
            })
            w)

  unfoldable pub disk_1316 : Registers → Disks → W → Outcome W
  unfolding disk_ret
  disk_1316 regs s w =
      if leb extstart_hd regs.dl then disk_ret disk_ret_eparam regs s w else disk_ret 6 regs s w

  unfoldable pub disk_1341 : Registers → Disks → W → Outcome W
  unfolding disk_ret
  disk_1341 regs s w = set_ah 0x30 (disk_ret 0 (record regs { bx = 0xaa55; ch = 0; cl = 7 }) s w)

  unfoldable pub disk_1346 : Registers → Disks → W → Outcome W
  unfolding disk_ret
  disk_1346 regs s w =
      if ltb regs.dl extstart_cd
      then disk_ret 0xb2 regs s w
      else if not (s.cdrom_locks (regs.dl - extstart_cd) == 0)
      then disk_ret 0xb1 regs s w
      else if eject regs
      then disk_ret 0xb1 regs s w
      else disk_ret 0 regs s w

  unfoldable pub disk_1349 : Registers → Disks → W → Outcome W
  unfolding disk_ret
  disk_1349 regs s w =
      if ltb regs.dl extstart_cd
      then disk_ret 0 regs s w
      else (record (set_invalid regs) { ah = 6 }, s, w)

  unfoldable pub disk_134e : Registers → Disks → W → Outcome W
  unfolding disk_ret
  disk_134e regs s w =
      if regs.al == 1 || (regs.al == 3 || (regs.al == 4 || regs.al == 6))
      then disk_ret 0 regs s w
      else disk_ret disk_ret_eparam regs s w

  abbrev pub disk_13_ext : Registers → Disks → W → Outcome W
  disk_13_ext regs s w =
      if regs.ah == 0x41
      then disk_1341 regs s w
      else if regs.ah == 0x42
      then extended_access send_disk_op emulated drive cmd_read regs s w
      else if regs.ah == 0x43
      then extended_access send_disk_op emulated drive cmd_write regs s w
      else if regs.ah == 0x44
      then extended_access send_disk_op emulated drive cmd_verify regs s w
      else if regs.ah == 0x45
      then disk_1345 send_disk_op emulated drive regs s w
      else if regs.ah == 0x46
      then disk_1346 regs s w
      else if regs.ah == 0x47
      then extended_access send_disk_op emulated drive cmd_seek regs s w
      else if regs.ah == 0x48
      then disk_1348 ata ebda_seg dpte_at drive regs s w
      else if regs.ah == 0x49
      then disk_1349 regs s w
      else if regs.ah == 0x4e
      then disk_134e regs s w
      else disk_ret_unimplemented disk_ret_eparam regs s w

  -- `junk` are the fields that a request without a transfer leaves as they are on the stack. The
  -- services 09h, 0ch, 0dh, 11h and 14h only answer.
  unfoldable pub disk_13_table : DiskOp → ℕ → Registers → Disks → W → Outcome W
  unfolding disk_1348 disk_ret disk_1301 disk_1305 disk_1316 disk_1341 disk_1346 disk_1349 disk_134e
  disk_13_table junk table2 regs s w =
      if regs.ah == 0
      then answer regs s (send_disk_op (bare_op cmd_reset junk) w)
      else if regs.ah == 1
      then disk_1301 regs s w
      else if regs.ah == 2
      then basic_access send_disk_op emulated drive cmd_read regs s w
      else if regs.ah == 3
      then basic_access send_disk_op emulated drive cmd_write regs s w
      else if regs.ah == 4
      then basic_access send_disk_op emulated drive cmd_verify regs s w
      else if regs.ah == 5
      then disk_1305 regs s w
      else if regs.ah == 8
      then disk_1308 send_disk_op emulated drive table2 regs s w
      else if regs.ah == 9
          || (regs.ah == 0x0c || (regs.ah == 0x0d || (regs.ah == 0x11 || regs.ah == 0x14)))
      then disk_ret 0 regs s w
      else if regs.ah == 0x10
      then answer regs s (send_disk_op (bare_op cmd_isready junk) w)
      else if regs.ah == 0x15
      then disk_1315 send_disk_op emulated drive regs s w
      else if regs.ah == 0x16
      then disk_1316 regs s w
      else disk_13_ext regs s w

  unfoldable pub disk_13 : DiskOp → ℕ → Registers → Disks → W → Outcome W
  unfolding disk_13_table
  disk_13 junk table2 regs s w =
      disk_13_table junk table2 regs (record s { disk_interrupt_flag = 0 }) w

  unfoldable pub floppy_13 : DiskOp → ℕ → Registers → Disks → W → Outcome W
  unfolding disk_13
  floppy_13 junk table2 regs s w =
      if leb regs.ah 5 || (regs.ah == 8 || (regs.ah == 0x15 || regs.ah == 0x16))
      then disk_13 junk table2 regs s w
      else disk_ret_unimplemented disk_ret_eparam regs s w
