-- ===== src/Disk/Within.antt =====
-- bios/seabios/src/disk.c: which sectors the services of interrupt 13h ask a driver for.
use coremu.Common.{
  ℕ, ◌-◌, ◌^◌, ◌≤◌, ◌<◌, ◌≡◌, ◌⊎◌, refl, sym, subst, Bool, true, false, not, ◌||◌, List, ◌∷◌, All,
  ltb, leb, ◌==◌, if◌then◌else◌, if_true, if_false, Bool-cases, inl, inr, arith,
}
use coremu.Drives.{Drive}
use coremu.Clock.Services.{Registers}
use coremu.Disk.{
  DiskOp, Disks, extstart_hd, extstart_cd, Outcome, disk_ret, fill_lchs, basic_access,
  extended_access, disk_1308, disk_1315, disk_134500, disk_134501, disk_134502, disk_1345,
}
use coremu.Disk.Access.{capacity, basic_access-Reaches}
use coremu.Disk.Tables.{AtaDrive, is_ata}
use coremu.Disk.Parameters.{disk_1348}
use coremu.Disk.Services.{
  cmd_read, cmd_write, cmd_verify, cmd_seek, disk_1301, disk_1305, disk_1316, disk_1341, disk_1346,
  disk_1349, disk_134e, disk_13_ext, disk_13_table, disk_13,
}

-- A driver that keeps what it was asked for, the latest first, and answers as it likes.
abbrev pub logged : (DiskOp → List DiskOp → ℕ × ℕ) → DiskOp → List DiskOp → ℕ × ℕ × List DiskOp
logged reply op log = ((reply op log).0, (reply op log).1, op ∷ log)

abbrev pub transfers : ℕ → Bool
transfers command = command == cmd_read || (command == cmd_write || command == cmd_verify)

-- A transfer begins at a sector of its drive.
abbrev pub IsWithin : DiskOp → Type 0
IsWithin op = (transfers op.command ≡ false) ⊎ (op.lba < op.drive_g.sectors)

abbrev pub Kept : Outcome (List DiskOp) → Type 0
Kept o = All IsWithin o.2

pub branch : (b : Bool) (x y : Outcome (List DiskOp)) → Kept x → Kept y → Kept (if b then x else y)
branch true x y p q = p
branch false x y p q = q

module _ (reply : DiskOp → List DiskOp → ℕ × ℕ) (eject : Registers → Bool) (drive : Drive)
    (ata : AtaDrive) (ebda_seg dpte_at : ℕ) where
  module _ (emulated : Bool) (s : Disks) (regs : Registers) (log : List DiskOp)
      (kept : All IsWithin log) where
    basic_access-Kept :
        (command : ℕ)
        → capacity (fill_lchs emulated drive s) ≤ drive.sectors
        → capacity (fill_lchs emulated drive s) < 2 ^ 32
        → Kept (basic_access (logged reply) emulated drive command regs s log)
    unfolding disk_ret
    basic_access-Kept command fits small =
        elim (basic_access-Reaches (logged reply) emulated drive command regs s log
          (omega (arith, fits, small))) [
            | inl refused ↦ subst Kept (sym refused.1) kept
            | inr sent ↦ subst Kept (sym sent.3) (inr (omega (arith, sent.4.in_drive, fits)), kept)
          ]

    extended_access-Kept :
        (command : ℕ) → Kept (extended_access (logged reply) emulated drive command regs s log)
    unfolding extended_access disk_ret
    extended_access-Kept command = elim (Bool-cases (leb drive.sectors s.ext_lba)) [
      | inl b ↦ subst Kept (sym (if_true (leb drive.sectors s.ext_lba) _ _ b)) kept
      | inr b ↦
          subst Kept (sym (if_false (leb drive.sectors s.ext_lba) _ _ b))
            (inr (ground (arith, b)), kept)
    ]

    disk_1305-Kept :
        Kept (disk_1305 (logged reply) eject ata ebda_seg dpte_at emulated drive regs s log)
    unfolding disk_1305 disk_ret
    disk_1305-Kept =
        branch
          (leb (fill_lchs emulated drive s).heads regs.dh
            || (regs.al == 0 || ltb (fill_lchs emulated drive s).spt regs.al))
          _ _ kept (inl refl, kept)

    disk_1348-Kept : Kept (disk_1348 ata ebda_seg dpte_at drive regs s log)
    unfolding disk_1348 disk_ret
    disk_1348-Kept = branch (ltb s.dpt.size 26) _ _ kept (
        branch (ltb s.dpt.size 30 || not (is_ata drive)) _ _ kept
          (branch (ltb s.dpt.size 66) _ _ kept kept))

    disk_1308-Kept : (table2 : ℕ) → Kept (disk_1308 (logged reply) emulated drive table2 regs s log)
    unfolding disk_1308 disk_ret
    disk_1308-Kept table2 =
        branch (ltb regs.dl extstart_hd) _ _ kept (branch (ltb regs.dl extstart_cd) _ _ kept kept)

    disk_1315-Kept : Kept (disk_1315 (logged reply) emulated drive regs s log)
    unfolding disk_1315 disk_ret
    disk_1315-Kept = branch (ltb regs.dl extstart_hd || leb extstart_cd regs.dl) _ _ kept kept

    disk_1345-Kept : Kept (disk_1345 (logged reply) emulated drive regs s log)
    unfolding disk_1345 disk_134500 disk_134501 disk_134502 disk_ret
    disk_1345-Kept = branch (ltb regs.dl extstart_cd) _ _ kept (
        branch (regs.al == 0) _ _
          (branch (s.cdrom_locks (regs.dl - extstart_cd) == 0xff) _ _ kept kept)
          (branch (regs.al == 1) _ _
            (branch (s.cdrom_locks (regs.dl - extstart_cd) == 0) _ _ kept kept)
            (branch (regs.al == 2) _ _ kept kept)))

  module _ (emulated : Bool) (s : Disks) (regs : Registers) (log : List DiskOp)
      (kept : All IsWithin log) where
    disk_13_ext-Kept :
        Kept (disk_13_ext (logged reply) eject ata ebda_seg dpte_at emulated drive regs s log)
    unfolding disk_1341 disk_1346 disk_1349 disk_134e disk_ret
    disk_13_ext-Kept = branch (regs.ah == 0x41) _ _ kept (
        branch (regs.ah == 0x42) _ _ (extended_access-Kept emulated s regs log kept cmd_read) (
          branch (regs.ah == 0x43) _ _ (extended_access-Kept emulated s regs log kept cmd_write) (
            branch (regs.ah == 0x44) _ _ (extended_access-Kept emulated s regs log kept cmd_verify)
              (branch (regs.ah == 0x45) _ _ (disk_1345-Kept emulated s regs log kept) (
                branch (regs.ah == 0x46) _ _
                  (branch (ltb regs.dl extstart_cd) _ _ kept (
                    branch (not (s.cdrom_locks (regs.dl - extstart_cd) == 0)) _ _ kept
                      (branch (eject regs) _ _ kept kept)))
                  (branch (regs.ah == 0x47) _ _
                    (extended_access-Kept emulated s regs log kept cmd_seek)
                    (branch (regs.ah == 0x48) _ _ (disk_1348-Kept emulated s regs log kept) (
                      branch (regs.ah == 0x49) _ _ (branch (ltb regs.dl extstart_cd) _ _ kept kept)
                        (branch (regs.ah == 0x4e) _ _
                          (branch (regs.al == 1 || (regs.al == 3 || (regs.al == 4 || regs.al == 6)))
                            _ _ kept kept)
                          kept)))))))))

    disk_13_table-Kept :
        (junk : DiskOp) (table2 : ℕ)
        → capacity (fill_lchs emulated drive s) ≤ drive.sectors
        → capacity (fill_lchs emulated drive s) < 2 ^ 32
        → Kept (
            disk_13_table
              (logged reply)
              eject
              ata
              ebda_seg
              dpte_at
              emulated
              drive
              junk
              table2
              regs
              s
              log)
    unfolding disk_13_table disk_1301 disk_1316 disk_ret
    disk_13_table-Kept junk table2 fits small =
        branch (regs.ah == 0) _ _ (inl refl, kept)
          (branch (regs.ah == 1) _ _ kept (
            branch (regs.ah == 2) _ _
              (basic_access-Kept emulated s regs log kept cmd_read fits small)
              (branch (regs.ah == 3) _ _
                (basic_access-Kept emulated s regs log kept cmd_write fits small)
                (branch (regs.ah == 4) _ _
                  (basic_access-Kept emulated s regs log kept cmd_verify fits small)
                  (branch (regs.ah == 5) _ _ (disk_1305-Kept emulated s regs log kept) (
                    branch (regs.ah == 8) _ _ (disk_1308-Kept emulated s regs log kept table2) (
                      branch
                        (regs.ah == 9
                          || (regs.ah == 0x0c
                              || (regs.ah == 0x0d || (regs.ah == 0x11 || regs.ah == 0x14))))
                        _ _ kept
                        (branch (regs.ah == 0x10) _ _ (inl refl, kept)
                          (branch (regs.ah == 0x15) _ _ (disk_1315-Kept emulated s regs log kept) (
                            branch (regs.ah == 0x16) _ _
                              (branch (leb extstart_hd regs.dl) _ _ kept kept)
                              disk_13_ext-Kept))))))))))

pub disk_13-Kept :
    (reply : DiskOp → List DiskOp → ℕ × ℕ) (eject : Registers → Bool) (drive : Drive)
    (emulated : Bool) (s : Disks) (regs : Registers) (log : List DiskOp) (junk : DiskOp)
    (table2 : ℕ) (ata : AtaDrive) (ebda_seg dpte_at : ℕ)
    → capacity (fill_lchs emulated drive s) ≤ drive.sectors
    → capacity (fill_lchs emulated drive s) < 2 ^ 32
    → All IsWithin log
    → All IsWithin
        (disk_13 (logged reply) eject ata ebda_seg dpte_at emulated drive junk table2 regs s log).2
unfolding disk_13
disk_13-Kept reply eject drive emulated s regs log junk table2 ata ebda_seg dpte_at fits small
      kept =
    disk_13_table-Kept reply eject drive ata ebda_seg dpte_at emulated
      (record s { disk_interrupt_flag = 0 }) regs log kept junk table2 fits small
