-- ===== src/Drives/Geometry.antt =====
-- bios/seabios/src/block.c: what the translation of the geometry keeps.
use coremu.Common.{
  ℕ, zero, suc, ◌*◌, ◌/◌, ◌%◌, ◌^◌, ◌≤◌, ◌<◌, ◌≡◌, ◌⊎◌, refl, sym, ap, ◌∙◌, subst, Option, some,
  ltb, ltb→lt, ◌==◌, ==_iff, if◌then◌else◌, if_true, if_false, if_both, Bool-cases, inl, inr, arith,
}
use native.Mathlib.Nat.{mul-le-mul_right, mul-le-mul_left, mul_assoc, mul_comm, mod-le, div-add-mod}
use coremu.Drives.{
  Chs, Drive, translation_lba, translation_large, translation_rechs, get_translation, lba_heads,
  lba_chs, revise, shift_loop, translated, store_lchs, setup_translation,
}

-- The number of tracks.
abbrev pub tracks : Chs → ℕ
tracks chs = chs.cylinders * chs.heads

-- Fields of 16 bits.
abbrev pub IsChs : Chs → Type 0
IsChs chs = (chs.heads < 2 ^ 16) × (chs.cylinders < 2 ^ 16)

half_tracks : (c h : ℕ) → c / 2 * (h * 2 % 2 ^ 16) ≤ c * h
half_tracks c h = omega (
  arith,
  mul-le-mul_left (c / 2) (mod-le (h * 2) (2 ^ 16)),
  mul-le-mul_right {m = c / 2 * 2} {n = c} h (omega arith),
  mul_assoc (c / 2) 2 h,
  ap (λ k. c / 2 * k) (mul_comm h 2),
)

-- The loop ends within `fuel` rounds for fewer cylinders than this.
abbrev limit : ℕ → ℕ
limit zero = 0
limit (suc zero) = 1025
limit (suc (suc n)) = 2 * limit (suc n)

-- A geometry that the loop gives: no more tracks than before, and the same sectors for each.
Shifted : Chs → Option Chs → Type 0
Shifted chs o = (r : Chs) × (o ≡ some r) × (tracks r ≤ tracks chs) × (r.spt ≡ chs.spt)

shift_loop-Shifted :
    (fuel : ℕ) (chs : Chs) → chs.cylinders < limit fuel → Shifted chs (shift_loop fuel chs)
unfolding shift_loop Shifted
shift_loop-Shifted zero chs h = absurd (omega (arith, h))
shift_loop-Shifted (suc zero) chs h =
    (chs, if_false (ltb 1024 chs.cylinders) _ _ (ground (arith, h)), omega arith, refl)
shift_loop-Shifted (suc (suc n)) chs h =
    let halved : Chs = record chs {
      cylinders = chs.cylinders / 2;
      heads = chs.heads * 2 % 2 ^ 16;
    } in
    let fewer = half_tracks chs.cylinders chs.heads in
    let (r, e, l, same) = shift_loop-Shifted (suc n) halved (omega (arith, h)) in
    if_both (Shifted chs) (ltb 1024 chs.cylinders) _ _
      (if_both (Shifted chs) (ltb 127 halved.heads) _ _ (halved, refl, fewer, refl)
        (r, e, omega (arith, l, fewer), same))
      (chs, refl, omega arith, refl)

-- The case of 16 heads has no more tracks, the same sectors, and cylinders of 16 bits.
revise-tracks :
    (chs : Chs)
    → chs.cylinders < 2 ^ 16
    → (tracks (revise chs) ≤ tracks chs)
      × ((revise chs).spt ≡ chs.spt)
      × ((revise chs).cylinders < 2 ^ 16)
unfolding revise
revise-tracks chs small = elim (Bool-cases (chs.heads == 16)) [
  | inl b ↦
      let e : chs.heads ≡ 16 = (==_iff chs.heads 16).0 b in
      subst (λ (r : Chs). (tracks r ≤ tracks chs) × (r.spt ≡ chs.spt) × (r.cylinders < 2 ^ 16))
        (sym (if_true (chs.heads == 16) _ _ b))
        (subst (λ h. cut * 15 ≤ chs.cylinders * h) (sym e) (ground arith), refl, omega arith)
  | inr b ↦
      subst (λ (r : Chs). (tracks r ≤ tracks chs) × (r.spt ≡ chs.spt) × (r.cylinders < 2 ^ 16))
        (sym (if_false (chs.heads == 16) _ _ b)) (omega arith, refl, small)
]
  where
    cut : ℕ
    cut = (if ltb 61439 chs.cylinders then 61439 else chs.cylinders) * 16 / 15 % 2 ^ 16

-- The logical geometry for LBA fits the number of sectors.
lba_chs-fits : (sectors : ℕ) → tracks (lba_chs sectors) * (lba_chs sectors).spt ≤ sectors
unfolding lba_chs
lba_chs-fits sectors = elim (Bool-cases (ltb (63 * 255 * 1024) sectors)) [
  | inl b ↦
      subst (λ (r : Chs). tracks r * r.spt ≤ sectors)
        (sym (if_true (ltb (63 * 255 * 1024) sectors) _ _ b))
        (omega (arith, ltb→lt (63 * 255 * 1024) sectors b))
  | inr b ↦
      subst (λ (r : Chs). tracks r * r.spt ≤ sectors)
        (sym (if_false (ltb (63 * 255 * 1024) sectors) _ _ b))
        (omega (
          arith,
          mul-le-mul_right {m = sect / h % 2 ^ 16} {n = sect / h} h (mod-le (sect / h) (2 ^ 16)),
          div-add-mod sect h,
          mul_comm h (sect / h),
        ))
]
  where
    sect : ℕ
    sect = sectors % 2 ^ 32 / 63

    h : ℕ
    h = lba_heads sect

-- What the switch gives: for LBA a geometry within the sectors, else one with no more tracks than the
-- physical geometry and the same sectors for each.
Fits : ℕ → Drive → Option Chs → Type 0
Fits t drive o =
    (r : Chs) × (o ≡ some r)
    × (((t ≡ translation_lba) × (tracks r * r.spt ≤ drive.sectors))
        ⊎ ((tracks r ≤ tracks drive.pchs) × (r.spt ≡ drive.pchs.spt)))

translated-Fits :
    (t : ℕ) (drive : Drive) → drive.pchs.cylinders < 2 ^ 16 → Fits t drive (translated 7 t drive)
unfolding translated Fits Shifted
translated-Fits t drive small = elim (Bool-cases (t == translation_lba)) [
  | inl b ↦ (
    lba_chs drive.sectors,
    if_true (t == translation_lba) _ _ b,
    inl ((==_iff t translation_lba).0 b, lba_chs-fits drive.sectors),
  )
  | inr b ↦ subst (Fits t drive) (sym (if_false (t == translation_lba) _ _ b)) (
      if_both (Fits t drive) (t == translation_rechs) _ _ by_revise (
        if_both (Fits t drive) (t == translation_large) _ _ by_loop
          (drive.pchs, refl, inr (omega arith, refl))))
]
  where
    by_loop : Fits t drive (shift_loop 7 drive.pchs)
    by_loop =
        let (r, e, l, same) = shift_loop-Shifted 7 drive.pchs (omega (arith, small)) in
        (r, e, inr (l, same))

    by_revise : Fits t drive (shift_loop 7 (revise drive.pchs))
    by_revise =
        let (fewer, same', small') = revise-tracks drive.pchs small in
        let (r, e, l, same) = shift_loop-Shifted 7 (revise drive.pchs) (omega (arith, small')) in
        (r, e, inr (omega (arith, l, fewer), same ∙ same'))

pub setup_translation-fits :
    (cmos : ℕ → ℕ) (drive : Drive)
    → drive.pchs.cylinders < 2 ^ 16
    → (d : Drive) × (setup_translation 7 cmos drive ≡ some d)
      × (d.translation ≡ get_translation cmos drive)
      × (d.lchs.cylinders ≤ 1024)
      × (((d.translation ≡ translation_lba) × (tracks d.lchs * d.lchs.spt ≤ drive.sectors))
          ⊎ ((tracks d.lchs ≤ tracks drive.pchs) × (d.lchs.spt ≡ drive.pchs.spt)))
unfolding setup_translation Fits
setup_translation-fits cmos drive small =
    let t = get_translation cmos drive in
    let (r, e, fits) = translated-Fits t (record drive { translation = t }) small in
    (_, ap (store_lchs (record drive { translation = t })) e, refl, ground arith, clipped r fits)
  where
    cut : Chs → ℕ
    cut r = if ltb 1024 r.cylinders then 1024 else r.cylinders

    cut_le : (r : Chs) → cut r ≤ r.cylinders
    cut_le r = ground arith

    clipped :
        (r : Chs)
        → ((get_translation cmos drive ≡ translation_lba) × (tracks r * r.spt ≤ drive.sectors))
          ⊎ ((tracks r ≤ tracks drive.pchs) × (r.spt ≡ drive.pchs.spt))
        → ((get_translation cmos drive ≡ translation_lba)
            × (cut r * r.heads * r.spt ≤ drive.sectors))
          ⊎ ((cut r * r.heads ≤ tracks drive.pchs) × (r.spt ≡ drive.pchs.spt))
    clipped r (inl (t, l)) =
        inl (t, omega (arith, l, mul-le-mul_right r.spt (mul-le-mul_right r.heads (cut_le r))))
    clipped r (inr (l, same)) = inr (omega (arith, l, mul-le-mul_right r.heads (cut_le r)), same)
