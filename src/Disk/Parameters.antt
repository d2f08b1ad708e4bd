-- ===== src/Disk/Parameters.antt =====
-- bios/seabios/src/disk.c: service 48h, which fills in the tables of parameters.
use coremu.Common.{
  ℕ, ◌≤◌, ◌<◌, ◌≡◌, ◌⊎◌, Bool, true, false, not, ◌||◌, List, [], ◌∷◌, ◌++◌, ltb, if◌then◌else◌,
  if_both,
}
use coremu.Checksum.{checksum_of}
use coremu.Drives.{Drive}
use coremu.Clock.Services.{Registers}
use coremu.Disk.Tables.{
  Dpt, Dpte, AtaDrive, bytes_of, dpte_body, dpi_body, edd_1, edd_2, edd_3, fill_dpte, is_ata,
}
use coremu.Disk.{Disks, extstart_hd, disk_ret_eparam, Outcome, disk_ret}

module _ (ata : AtaDrive) (ebda_seg dpte_at : ℕ) (drive : Drive) where
  abbrev pub with_edd_1 : Disks → Disks
  with_edd_1 s = record s { dpt = edd_1 drive s.dpt }

  abbrev pub with_edd_2 : Disks → Disks
  with_edd_2 s = record s { dpt = edd_2 ebda_seg dpte_at s.dpt; dpte = fill_dpte ata drive s.dpte }

  abbrev pub with_edd_3 : Disks → Disks
  with_edd_3 s = record s { dpt = edd_3 ata s.dpt }

  unfoldable pub disk_1348 : {W : Type 0} → Registers → Disks → W → Outcome W
  unfolding disk_ret checksum_of bytes_of
  disk_1348 regs s w =
      let size = s.dpt.size in
      if ltb size 26
      then disk_ret disk_ret_eparam regs s w
      else if ltb size 30 || not (is_ata drive)
      then disk_ret 0 regs (with_edd_1 s) w
      else if ltb size 66
      then disk_ret 0 regs (with_edd_2 (with_edd_1 s)) w
      else disk_ret 0 regs (with_edd_3 (with_edd_2 (with_edd_1 s))) w

-- The fields of the table from byte 26 on, and from byte 30 on.
abbrev pub dpi_part : Dpt → List ℕ × ℕ
dpi_part t = (dpi_body t, t.checksum)

abbrev pub edd_2_part : Dpt → (ℕ × ℕ) × (List ℕ × ℕ)
edd_2_part t = ((t.dpte_offset, t.dpte_segment), dpi_part t)

-- What service 48h leaves in the carry flag and in the tables `t` and `e`, for a buffer of
-- `s.dpt.size` bytes.
pub IsFilled : Drive → Disks → Bool → Dpt → Dpte → Type 0
unfolding checksum_of bytes_of
IsFilled drive s cf t e =
    ((s.dpt.size < 26) × (cf ≡ true) × (t ≡ s.dpt) × (e ≡ s.dpte))
    ⊎ ((26 ≤ s.dpt.size)
        × (cf ≡ false)
        × (t.size ≤ s.dpt.size)
        × ((((s.dpt.size < 30) ⊎ (is_ata drive ≡ false))
              × (edd_2_part t ≡ edd_2_part s.dpt)
              × (e ≡ s.dpte))
            ⊎ ((30 ≤ s.dpt.size)
                × (checksum_of (dpte_body e ++ (e.checksum ∷ [])) ≡ 0)
                × (((s.dpt.size < 66) × (dpi_part t ≡ dpi_part s.dpt))
                    ⊎ ((66 ≤ s.dpt.size) × (checksum_of (dpi_body t ++ (t.checksum ∷ [])) ≡ 0))))))

module _ {W : Type 0} (ata : AtaDrive) (ebda_seg dpte_at : ℕ) (drive : Drive) (regs : Registers)
    (s : Disks) (w : W) where
  abbrev Good : Outcome W → Type 0
  Good (regs', s', w') = IsFilled drive s regs'.cf s'.dpt s'.dpte

  refused : IsFilled drive s true s.dpt s.dpte → Good (disk_ret disk_ret_eparam regs s w)
  unfolding disk_ret
  refused f =
      if_both (λ (x : Disks). IsFilled drive s true x.dpt x.dpte) (ltb regs.dl extstart_hd) _ _ f f

  -- The tables after each stage.
  first : Disks
  first = with_edd_1 ata ebda_seg dpte_at drive s

  second : Disks
  second = with_edd_2 ata ebda_seg dpte_at drive first

  third : Disks
  third = with_edd_3 ata ebda_seg dpte_at drive second
