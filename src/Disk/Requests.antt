-- ===== src/Disk/Requests.antt =====
-- bios/seabios/src/disk.c: what the entry points of interrupt 13h ask the drivers for.
use coremu.Common.{◌^◌, ◌≤◌, ◌<◌, All}
use coremu.Drives.{Drive}
use coremu.Disk.Access.{capacity}
use coremu.Disk.Entry.{IdMaps}

-- The geometry of a drive has no more sectors than the drive, and fewer than 2 ^ 32. A floppy and a CD
-- have 2 ^ 64 - 1 in `sectors`.
pub record Fits (drive : Drive) : Type 0 where
  pub geometry : capacity drive.lchs ≤ drive.sectors
  pub small : capacity drive.lchs < 2 ^ 32

pub record AllFit (idmap : IdMaps) : Type 0 where
  pub floppies : All Fits idmap.floppies
  pub hds : All Fits idmap.hds
  pub cds : All Fits idmap.cds
