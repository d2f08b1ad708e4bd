-- ===== src/Disk.antt =====
-- bios/seabios/src/disk.c, bios/seabios/src/disk.h: the services of interrupt 13h for a drive.
pub mod Tables
pub mod Parameters
pub mod Access
pub mod Services
pub mod Within
pub mod Entry
pub mod Requests
mod Tests
use coremu.Common.{
  ℕ, ◌+◌, ◌-◌, ◌*◌, ◌/◌, ◌%◌, ◌^◌, Bool, true, false, not, ◌&&◌, ◌||◌, ltb, leb, ◌==◌,
  if◌then◌else◌, bit_xor,
}
use coremu.Drives.{Chs, Drive}
use coremu.Disk.Tables.{Dpt, Dpte, AtaDrive, edd_1, edd_2, edd_3, fill_dpte, is_ata, bytes_of}
use coremu.Checksum.{checksum_of}
use coremu.Clock.Services.{Registers, set_success, set_invalid, set_code_invalid, cx_dx}

-- `struct disk_op_s`.
pub record DiskOp : Type 0 where
  pub lba : ℕ  -- u64
  pub buf_fl : ℕ
  pub drive_g : Drive
  pub count : ℕ  -- u16
  pub command : ℕ

-- The fields of the BIOS data area, of the EBDA, of `Drives` and of what stands at ds:si, which is the
-- packet (`ext_`) in services 42h to 44h and 47h and the table `dpt` in service 48h.
pub record Disks : Type 0 where
  pub floppy_last_status : ℕ
  pub disk_last_status : ℕ
  pub disk_interrupt_flag : ℕ
  pub hdcount : ℕ
  pub floppycount : ℕ
  pub cdrom_locks : ℕ → ℕ
  pub cdemu_active : ℕ
  pub cdemu_extdrive : ℕ
  pub cdemu_media : ℕ
  pub cdemu_lchs : Chs
  pub ext_lba : ℕ
  pub ext_count : ℕ
  pub ext_data : ℕ
  pub dpt : Dpt
  pub dpte : Dpte

abbrev pub extstart_hd : ℕ
extstart_hd = 0x80

abbrev pub extstart_cd : ℕ
extstart_cd = 0xe0

abbrev pub disk_ret_eparam : ℕ
disk_ret_eparam = 1

abbrev pub max_floppies : ℕ
max_floppies = 2

-- What a service leaves: the registers, the fields above and the drives, `W`.
abbrev pub Outcome : Type 0 → Type 0
Outcome W = Registers × Disks × W

abbrev pub store_status : ℕ → Registers → Disks → Disks
store_status code regs s =
    if ltb regs.dl extstart_hd
    then record s { floppy_last_status = code }
    else record s { disk_last_status = code }

unfoldable pub disk_ret : {W : Type 0} → ℕ → Registers → Disks → W → Outcome W
disk_ret status regs s w =
    let code = status % 256 in
    (
      if code == 0 then set_success (record regs { ah = 0 }) else set_code_invalid code regs,
      store_status code regs s,
      w,
    )

abbrev pub disk_ret_unimplemented : {W : Type 0} → ℕ → Registers → Disks → W → Outcome W
disk_ret_unimplemented code regs s w = (set_code_invalid code regs, store_status code regs s, w)

-- `emulated` says that the drive is the one of the emulation.
abbrev pub fill_lchs : Bool → Drive → Disks → Chs
fill_lchs emulated drive s = if emulated then s.cdemu_lchs else drive.lchs

-- The cylinder and the sector of ch and cl: bits 6 and 7 of cl stand above ch.
abbrev pub cylinder_of : Registers → ℕ
cylinder_of regs = regs.ch + regs.cl / 64 * 256

abbrev pub sector_of : Registers → ℕ
sector_of regs = regs.cl % 64

abbrev pub lba_of : Chs → Registers → ℕ
lba_of chs regs =
    ((cylinder_of regs * chs.heads % 2 ^ 32 + regs.dh) % 2 ^ 32 * chs.spt
      + sector_of regs
      + (2 ^ 32 - 1))
    % 2 ^ 32

-- The end of `basic_access` with what the driver answers; `al` is a byte.
abbrev pub basic_answer : {W : Type 0} → Registers → Disks → ℕ × ℕ × W → Outcome W
basic_answer regs s (status, count, w) = disk_ret status (record regs { al = count % 256 }) s w

abbrev pub extended_answer : {W : Type 0} → Registers → Disks → ℕ × ℕ × W → Outcome W
extended_answer regs s (status, count, w) = disk_ret status regs (record s { ext_count = count }) w

-- The geometry as `disk_1308` puts it in the registers.
abbrev pub with_geometry : ℕ → ℕ → ℕ → Registers → Registers
with_geometry nlc nlh nlspt regs = record regs {
  al = 0;
  ch = nlc % 256;
  cl = nlc / 256 % 4 * 64 + nlspt % 64;
  dh = nlh % 256;
}

abbrev pub with_emulation : Registers → Disks → ℕ → ℕ
with_emulation regs s count =
    if s.cdemu_active == 0
    then count
    else let count' =
        if bit_xor s.cdemu_extdrive regs.dl / 128 == 0 then (count + 1) % 256 else count in
      if ltb regs.dl extstart_hd && ltb max_floppies count' then max_floppies else count'

abbrev pub minus_one : ℕ → ℕ
minus_one x = (x + (2 ^ 16 - 1)) % 2 ^ 16

abbrev pub set_dl : {W : Type 0} → ℕ → Outcome W → Outcome W
set_dl count (regs, s, w) = (record regs { dl = count }, s, w)

abbrev pub disk_ret_etoomanylocks : ℕ
disk_ret_etoomanylocks = 0xb4

abbrev pub disk_ret_enotlocked : ℕ
disk_ret_enotlocked = 0xb0

abbrev pub set_locks : ℕ → ℕ → Disks → Disks
set_locks cdid locks s = record s {
  cdrom_locks = λ i. if i == cdid then locks else s.cdrom_locks i;
}

-- `send_disk_op` is the driver: the status, the count afterwards and the drives.
module _ {W : Type 0} (send_disk_op : DiskOp → W → ℕ × ℕ × W) (emulated : Bool)
    (drive : Drive) where
  abbrev pub basic_op : ℕ → Registers → Disks → DiskOp
  basic_op command regs s = record {
    lba = lba_of (fill_lchs emulated drive s) regs;
    buf_fl = regs.es * 16 + regs.bx;
    drive_g = drive;
    count = regs.al;
    command = command;
  }

  unfoldable pub basic_access : ℕ → Registers → Disks → W → Outcome W
  unfolding disk_ret
  basic_access command regs s w =
      let chs = fill_lchs emulated drive s in
      if ltb 128 regs.al || (regs.al == 0 || sector_of regs == 0)
      then disk_ret disk_ret_eparam regs s w
      else if leb chs.cylinders (cylinder_of regs)
          || (leb chs.heads regs.dh || ltb chs.spt (sector_of regs))
      then disk_ret disk_ret_eparam regs s w
      else basic_answer regs s (send_disk_op (basic_op command regs s) w)

  unfoldable pub extended_access : ℕ → Registers → Disks → W → Outcome W
  unfolding disk_ret
  extended_access command regs s w =
      if leb drive.sectors s.ext_lba
      then disk_ret disk_ret_eparam regs s w
      else extended_answer regs s (
          send_disk_op
            (record {
              lba = s.ext_lba;
              buf_fl = s.ext_data;
              drive_g = drive;
              count = s.ext_count;
              command = command;
            })
            w)

  -- `table2` is the address of diskette_param_table2.
  unfoldable pub disk_1308 : ℕ → Registers → Disks → W → Outcome W
  unfolding disk_ret
  disk_1308 table2 regs s w =
      let chs = fill_lchs emulated drive s in
      let nlc = minus_one chs.cylinders in
      let nlh = minus_one chs.heads in
      if ltb regs.dl extstart_hd
      then set_dl (with_emulation regs s s.floppycount) (
          disk_ret 0
            (with_geometry nlc nlh chs.spt (record regs {
              bx = if emulated then s.cdemu_media * 2 % 2 ^ 16 else drive.floppy_type;
              es = 0xf000;
              di = table2 % 2 ^ 16;
            }))
            s w)
      else if ltb regs.dl extstart_cd
      then set_dl (with_emulation regs s s.hdcount)
          (disk_ret 0 (with_geometry (minus_one nlc) nlh chs.spt regs) s w)
      else disk_ret disk_ret_eparam regs s w

  unfoldable pub disk_1315 : Registers → Disks → W → Outcome W
  unfolding disk_ret
  disk_1315 regs s w =
      let (regs', s', w') = disk_ret 0 regs s w in
      let chs = fill_lchs emulated drive s in
      let lba = (chs.cylinders + (2 ^ 32 - 1)) % 2 ^ 32 * chs.heads % 2 ^ 32 * chs.spt % 2 ^ 32 in
      if ltb regs.dl extstart_hd || leb extstart_cd regs.dl
      then (record regs' { ah = 1 }, s', w')
      else (
        record regs' {
          ch = lba / 2 ^ 24 % 256;
          cl = lba / 2 ^ 16 % 256;
          dh = lba / 2 ^ 8 % 256;
          dl = lba % 256;
          ah = 3;
        },
        s',
        w',
      )

  unfoldable pub disk_134500 : Registers → Disks → W → Outcome W
  unfolding disk_ret
  disk_134500 regs s w =
      let cdid = regs.dl - extstart_cd in
      let locks = s.cdrom_locks cdid in
      if locks == 0xff
      then disk_ret disk_ret_etoomanylocks (record regs { al = 1 }) s w
      else disk_ret 0 (record regs { al = 1 }) (set_locks cdid (locks + 1) s) w

  unfoldable pub disk_134501 : Registers → Disks → W → Outcome W
  unfolding disk_ret
  disk_134501 regs s w =
      let cdid = regs.dl - extstart_cd in
      let locks = s.cdrom_locks cdid in
      if locks == 0
      then disk_ret disk_ret_enotlocked (record regs { al = 0 }) s w
      else disk_ret 0 (record regs { al = if locks - 1 == 0 then 0 else 1 })
          (set_locks cdid (locks - 1) s) w

  unfoldable pub disk_134502 : Registers → Disks → W → Outcome W
  unfolding disk_ret
  disk_134502 regs s w =
      disk_ret 0 (record regs { al = if s.cdrom_locks (regs.dl - extstart_cd) == 0 then 0 else 1 })
        s w

  -- Service 45h: the lock of a CD.
  unfoldable pub disk_1345 : Registers → Disks → W → Outcome W
  unfolding disk_ret disk_134500 disk_134501 disk_134502
  disk_1345 regs s w =
      if ltb regs.dl extstart_cd
      then disk_ret 0 regs s w
      else if regs.al == 0
      then disk_134500 regs s w
      else if regs.al == 1
      then disk_134501 regs s w
      else if regs.al == 2
      then disk_134502 regs s w
      else disk_ret_unimplemented disk_ret_eparam regs s w
