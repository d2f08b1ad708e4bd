-- ===== src/Drives/HardDisks.antt =====
-- bios/seabios/src/block.c: what map_hd_drive does.
use coremu.Common.{
  ℕ, ◌+◌, ◌-◌, ◌%◌, ◌≤◌, ◌<◌, ◌≡◌, ◌⊎◌, refl, sym, subst, false, some, [], ◌∷◌, ◌++◌, length, ltb,
  ltb→lt, leb, leb→le, ◌==◌, ==_iff, if_true, if_false, Bool-cases, inl, inr, arith,
}
use coremu.Checksum.{checksum_of, sum_bytes-total, total, balanced}
use coremu.Drives.{Drive, config_max_extdrive}
use coremu.Drives.Fdpt.{
  Fdpt, fdpt_bytes, is_mapped, basic_fdpt, physical_fdpt, checked_fdpt, filled, HdMap, fill_fdpt,
  map_hd_drive,
}

-- The byte that the checksum adds.
checksum_last :
    (f : Fdpt) (x : ℕ)
    → total (fdpt_bytes (record f { checksum = x }))
      ≡ x + total (fdpt_bytes (record f { checksum = 0 }))
unfolding total
checksum_last f x = omega arith

adds_up : (f : Fdpt) → checksum_of (fdpt_bytes (checked_fdpt f)) ≡ 0
unfolding checksum_of
adds_up f =
    let rest = total (fdpt_bytes (record f { checksum = 0 })) in
    omega (
      arith,
      sum_bytes-total 0 (fdpt_bytes f) (omega arith),
      sum_bytes-total 0 (fdpt_bytes (checked_fdpt f)) (omega arith),
      checksum_last f f.checksum,
      checksum_last f ((f.checksum + (256 - checksum_of (fdpt_bytes f))) % 256),
      balanced f.checksum rest,
    )

-- The table of a drive: its logical geometry, and where that is not the physical one, the physical
-- geometry under the signature a0h and a sum of the bytes of 0.
pub record IsTable (drive : Drive) (f : Fdpt) : Type 0 where
  pub cylinders_stored : f.cylinders ≡ drive.lchs.cylinders
  pub heads_stored : f.heads ≡ drive.lchs.heads % 256
  pub sectors_stored : f.sectors ≡ drive.lchs.spt % 256
  pub extended :
      (drive.lchs ≡ drive.pchs)
      ⊎ ((f.a0h_signature ≡ 0xa0)
          × (f.phys_cylinders ≡ drive.pchs.cylinders)
          × (f.phys_heads ≡ drive.pchs.heads % 256)
          × (f.phys_sectors ≡ drive.pchs.spt % 256)
          × (checksum_of (fdpt_bytes f) ≡ 0))

same_chs : (drive : Drive) → is_mapped drive ≡ false → drive.lchs ≡ drive.pchs
same_chs drive b =
    let heads' : drive.lchs.heads ≡ drive.pchs.heads = ground (arith, b) in
    let cylinders' : drive.lchs.cylinders ≡ drive.pchs.cylinders = ground (arith, b) in
    let spt' : drive.lchs.spt ≡ drive.pchs.spt = ground (arith, b) in
    λ i. record { heads = heads' i; cylinders = cylinders' i; spt = spt' i }

filled-IsTable : (drive : Drive) (f : Fdpt) → IsTable drive (filled drive f)
unfolding filled
filled-IsTable drive f = elim (Bool-cases (is_mapped drive)) [
  | inl b ↦ subst (IsTable drive) (sym (if_true (is_mapped drive) _ _ b)) (record {
    cylinders_stored = refl;
    heads_stored = refl;
    sectors_stored = refl;
    extended = inr (refl, refl, refl, refl, adds_up (physical_fdpt drive (basic_fdpt drive f)));
  })
  | inr b ↦ subst (IsTable drive) (sym (if_false (is_mapped drive) _ _ b)) (record {
    cylinders_stored = refl;
    heads_stored = refl;
    sectors_stored = refl;
    extended = inl (same_chs drive b);
  })
]

-- What a map of hard disks may have become when a drive was added.
pub IsMapped : ℕ → HdMap → Drive → HdMap → Type 0
IsMapped ebda_seg hdmap drive r =
    let n = length hdmap.hds in
    let hds' = hdmap.hds ++ (drive ∷ []) in
    ((config_max_extdrive ≤ n) × (r ≡ hdmap))
    ⊎ ((n < config_max_extdrive)
        × (((1 < n) × (r ≡ record hdmap { hds = hds' }))
            ⊎ (((n ≡ 0)
                  × IsTable drive r.fdpt0
                  × (r ≡ record hdmap {
                    hds = hds';
                    fdpt0 = r.fdpt0;
                    vector_41 = some (ebda_seg, 0x3d);
                  }))
                ⊎ ((n ≡ 1)
                    × IsTable drive r.fdpt1
                    × (r ≡ record hdmap {
                      hds = hds';
                      fdpt1 = r.fdpt1;
                      vector_46 = some (ebda_seg, 0x4d);
                    })))))

module _ (ebda_seg : ℕ) (hdmap : HdMap) (drive : Drive) where
  n : ℕ
  n = length hdmap.hds

  added : HdMap
  added = record hdmap { hds = hdmap.hds ++ (drive ∷ []) }

  fill_lem :
      n < config_max_extdrive → IsMapped ebda_seg hdmap drive (fill_fdpt ebda_seg drive n added)
  unfolding fill_fdpt IsMapped n added
  fill_lem l = elim (Bool-cases (ltb 1 n)) [
    | inl b ↦
        subst (IsMapped ebda_seg hdmap drive) (sym (if_true (ltb 1 n) _ _ b))
          (inr (l, inl (ltb→lt 1 n b, refl)))
    | inr b ↦
        subst (IsMapped ebda_seg hdmap drive) (sym (if_false (ltb 1 n) _ _ b))
          (elim (Bool-cases (n == 0)) [
            | inl z ↦
                subst (IsMapped ebda_seg hdmap drive) (sym (if_true (n == 0) _ _ z))
                  (inr (l, inr (inl ((==_iff n 0).0 z, filled-IsTable drive hdmap.fdpt0, refl))))
            | inr z ↦
                subst (IsMapped ebda_seg hdmap drive) (sym (if_false (n == 0) _ _ z)) (
                  inr (l, inr (inr (ground (arith, b, z), filled-IsTable drive hdmap.fdpt1, refl))))
          ])
  ]

  -- Sixteen hard disks are the most. Any other is put behind those that are mapped, the first two get
  -- the table with their geometry in the EBDA and the vector 41h or 46h that points to it, and nothing
  -- else changes.
  pub map_hd_drive-IsMapped : IsMapped ebda_seg hdmap drive (map_hd_drive ebda_seg hdmap drive)
  unfolding map_hd_drive IsMapped n added
  map_hd_drive-IsMapped = elim (Bool-cases (leb config_max_extdrive n)) [
    | inl b ↦
        subst (IsMapped ebda_seg hdmap drive) (sym (if_true (leb config_max_extdrive n) _ _ b))
          (inl (leb→le config_max_extdrive n b, refl))
    | inr b ↦
        subst (IsMapped ebda_seg hdmap drive) (sym (if_false (leb config_max_extdrive n) _ _ b))
          (fill_lem (ground (arith, b)))
  ]
