-- ===== src/Disk/Access.antt =====
-- bios/seabios/src/disk.c: the sector that an access by cylinder, head and sector reaches.
use coremu.Common.{
  ℕ, ◌+◌, ◌-◌, ◌*◌, ◌/◌, ◌%◌, ◌^◌, ◌≤◌, ◌<◌, ◌≡◌, ◌⊎◌, refl, sym, ap, subst, ◌∙◌, Bool, true, false,
  ◌||◌, some, some_inj, ltb, leb, ◌==◌, if◌then◌else◌, if_true, if_false, Bool-cases, inl, inr,
  arith,
}
use native.Mathlib.Nat.{
  mul-add-div_right, mul-add-mod_self_right, mul-le-mul_right, mul-le-mul_left, div-eq_of_lt,
  mod-eq_of_lt,
}
use coremu.Drives.{Chs, Drive, setup_translation}
use coremu.Drives.Geometry.{tracks, setup_translation-fits}
use coremu.Clock.Services.{Registers}
use coremu.Disk.{
  DiskOp, Disks, extstart_hd, extstart_cd, disk_ret_eparam, Outcome, disk_ret, fill_lchs,
  cylinder_of, sector_of, lba_of, basic_op, basic_answer, basic_access, minus_one, disk_1308,
}

abbrev pub capacity : Chs → ℕ
capacity chs = tracks chs * chs.spt

-- The registers name a sector of the geometry.
pub record IsInside (chs : Chs) (regs : Registers) : Type 0 where
  pub cylinder : cylinder_of regs < chs.cylinders
  pub head : regs.dh < chs.heads
  pub sector : 0 < sector_of regs
  pub last : sector_of regs ≤ chs.spt

below : (x y n m : ℕ) → x < n → y < m → x * m + y < n * m
below x y n m h l = omega (arith, mul-le-mul_right m h, l)

quotient : (x y m : ℕ) → y < m → (x * m + y) / m ≡ x
quotient x y m l =
    mul-add-div_right (omega (arith, l)) x y ∙ omega (arith, div-eq_of_lt {n = y} {m = m} l)

remainder : (x y m : ℕ) → y < m → (x * m + y) % m ≡ y
remainder x y m l = mul-add-mod_self_right x m y ∙ mod-eq_of_lt l

-- The number of a sector, before the reductions modulo 2 ^ 32.
abbrev number : Chs → Registers → ℕ
number chs regs = (cylinder_of regs * chs.heads + regs.dh) * chs.spt + (sector_of regs - 1)

module _ {chs : Chs} {regs : Registers} (i : IsInside chs regs) where
  track_lt : cylinder_of regs * chs.heads + regs.dh < tracks chs
  track_lt = below (cylinder_of regs) regs.dh chs.cylinders chs.heads i.cylinder i.head

  number_lt : number chs regs < capacity chs
  number_lt =
      below (cylinder_of regs * chs.heads + regs.dh) (sector_of regs - 1) (tracks chs) chs.spt
        track_lt (omega (arith, i.sector, i.last))

  spt_pos : 0 < chs.spt
  spt_pos = omega (arith, i.sector, i.last)

  sector_lt : sector_of regs - 1 < chs.spt
  sector_lt = omega (arith, i.sector, i.last)

  track_of : number chs regs / chs.spt ≡ cylinder_of regs * chs.heads + regs.dh
  track_of =
      quotient (cylinder_of regs * chs.heads + regs.dh) (sector_of regs - 1) chs.spt sector_lt

-- What the access of a drive by a number means: the cylinder, the head and the sector that are read
-- from it are those of the registers.
pub record Reaches (chs : Chs) (regs : Registers) (lba : ℕ) : Type 0 where
  pub in_drive : lba < capacity chs
  pub cylinder_read : lba / chs.spt / chs.heads ≡ cylinder_of regs
  pub head_read : lba / chs.spt % chs.heads ≡ regs.dh
  pub sector_read : lba % chs.spt + 1 ≡ sector_of regs

wrapped :
    (a h m sec : ℕ)
    → a + h < 2 ^ 32
    → 0 < sec
    → (a + h) * m + (sec - 1) < 2 ^ 32
    → ((a % 2 ^ 32 + h) % 2 ^ 32 * m + sec + (2 ^ 32 - 1)) % 2 ^ 32 ≡ (a + h) * m + (sec - 1)
wrapped a h m sec l pos small =
    let e : (a % 2 ^ 32 + h) % 2 ^ 32 ≡ a + h = omega (arith, l) in
    ap (λ t. (t * m + sec + (2 ^ 32 - 1)) % 2 ^ 32) e ∙ last ((a + h) * m) sec pos small
  where
    last : (x s : ℕ) → 0 < s → x + (s - 1) < 2 ^ 32 → (x + s + (2 ^ 32 - 1)) % 2 ^ 32 ≡ x + (s - 1)
    last x s p l = omega (arith, p, l)

lba_lem :
    {chs : Chs} {regs : Registers}
    → IsInside chs regs
    → capacity chs < 2 ^ 32
    → lba_of chs regs ≡ number chs regs
lba_lem {chs} {regs} i small =
    wrapped (cylinder_of regs * chs.heads) regs.dh chs.spt (sector_of regs)
      (omega (arith, track_lt i, few chs (spt_pos i), small)) i.sector
      (omega (arith, number_lt i, small))
  where
    few : (chs : Chs) → 0 < chs.spt → tracks chs ≤ capacity chs
    few chs p = omega (arith, mul-le-mul_left (tracks chs) p)

lba-Reaches :
    {chs : Chs} {regs : Registers}
    → IsInside chs regs
    → capacity chs < 2 ^ 32
    → Reaches chs regs (lba_of chs regs)
lba-Reaches {chs} {regs} i small = subst (Reaches chs regs) (sym (lba_lem i small)) (record {
  in_drive = number_lt i;
  cylinder_read =
      ap (λ t. t / chs.heads) (track_of i) ∙ quotient (cylinder_of regs) regs.dh chs.heads i.head;
  head_read =
      ap (λ t. t % chs.heads) (track_of i) ∙ remainder (cylinder_of regs) regs.dh chs.heads i.head;
  sector_read =
      ap suc' (
        remainder (cylinder_of regs * chs.heads + regs.dh) (sector_of regs - 1) chs.spt
          (sector_lt i))
      ∙ omega (arith, i.sector);
})
  where
    suc' : ℕ → ℕ
    suc' n = n + 1

-- Whether the request is refused: a count that is none, or no sector of the geometry.
abbrev pub bad_count : Registers → Bool
bad_count regs = ltb 128 regs.al || (regs.al == 0 || sector_of regs == 0)

abbrev pub bad_sector : Chs → Registers → Bool
bad_sector chs regs =
    leb chs.cylinders (cylinder_of regs) || (leb chs.heads regs.dh || ltb chs.spt (sector_of regs))

either :
    {A : Type 0} (a b : Bool) (x y : A)
    → (if a then x else if b then x else y) ≡ (if a || b then x else y)
either true b x y = refl
either false b x y = refl

allowed :
    (chs : Chs) (regs : Registers)
    → (bad_count regs || bad_sector chs regs) ≡ false
    → IsInside chs regs × (0 < regs.al) × (regs.al ≤ 128)
allowed chs regs b = (
  record {
    cylinder = ground (arith, b);
    head = ground (arith, b);
    sector = ground (arith, b);
    last = ground (arith, b);
  },
  ground (arith, b),
  ground (arith, b),
)

module _ {W : Type 0} (send_disk_op : DiskOp → W → ℕ × ℕ × W) (emulated : Bool) (drive : Drive)
    (command : ℕ) (regs : Registers) (s : Disks) (w : W) where
  both : basic_access send_disk_op emulated drive command regs s w ≡ (
      if bad_count regs || bad_sector (fill_lchs emulated drive s) regs
      then disk_ret disk_ret_eparam regs s w
      else basic_answer regs s
          (send_disk_op (basic_op send_disk_op emulated drive command regs s) w))
  unfolding basic_access
  both =
      either (bad_count regs) (bad_sector (fill_lchs emulated drive s) regs)
        (disk_ret disk_ret_eparam regs s w)
        (basic_answer regs s (send_disk_op (basic_op send_disk_op emulated drive command regs s) w))

  -- An access by cylinder, head and sector, with a geometry of fewer than 2 ^ 32 sectors: a count that
  -- is 0 or more than 128, or a place outside of the geometry, is answered with an error and the driver
  -- is not called. Otherwise the driver is called once, for a sector of the drive whose number stands
  -- for the cylinder, the head and the sector in the registers and for no others.
  pub basic_access-Reaches :
      capacity (fill_lchs emulated drive s) < 2 ^ 32
      → let chs = fill_lchs emulated drive s in
        let op = basic_op send_disk_op emulated drive command regs s in
        let done = basic_access send_disk_op emulated drive command regs s w in
        (((bad_count regs || bad_sector chs regs) ≡ true)
          × (done ≡ disk_ret disk_ret_eparam regs s w))
        ⊎ (IsInside chs regs
            × (0 < regs.al)
            × (regs.al ≤ 128)
            × (done ≡ basic_answer regs s (send_disk_op op w))
            × Reaches chs regs op.lba)
  basic_access-Reaches small =
      elim (Bool-cases (bad_count regs || bad_sector (fill_lchs emulated drive s) regs)) [
        | inl b ↦ inl (
          b,
          both ∙ if_true (bad_count regs || bad_sector (fill_lchs emulated drive s) regs) _ _ b,
        )
        | inr b ↦
            let (inside, positive, few) = allowed (fill_lchs emulated drive s) regs b in
            inr (
              inside,
              positive,
              few,
              both
                  ∙ if_false (bad_count regs || bad_sector (fill_lchs emulated drive s) regs) _ _ b,
              lba-Reaches inside small,
            )
      ]

-- Behind setup_translation for a drive of fewer than 2 ^ 32 sectors whose physical geometry, of 16 bits
-- for the cylinders, has no more sectors than the drive: whatever is in the registers, an access by
-- cylinder, head and sector is refused, or its first sector is one of the drive.
pub basic_access-in_drive :
    {W : Type 0} (send_disk_op : DiskOp → W → ℕ × ℕ × W) (cmos : ℕ → ℕ) (drive d : Drive)
    (command : ℕ) (regs : Registers) (s : Disks) (w : W)
    → drive.pchs.cylinders < 2 ^ 16
    → capacity drive.pchs ≤ drive.sectors
    → drive.sectors < 2 ^ 32
    → setup_translation 7 cmos drive ≡ some d
    → (basic_access send_disk_op false d command regs s w ≡ disk_ret disk_ret_eparam regs s w)
      ⊎ ((basic_access send_disk_op false d command regs s w
            ≡ basic_answer regs s (send_disk_op (basic_op send_disk_op false d command regs s) w))
          × ((basic_op send_disk_op false d command regs s).lba < drive.sectors))
basic_access-in_drive send_disk_op cmos drive d command regs s w cyl cap small set =
    let (d', set', t, c, fits) = setup_translation-fits cmos drive cyl in
    let one : d' ≡ d = some_inj (sym set' ∙ set) in
    let within : capacity d.lchs ≤ drive.sectors =
      subst (λ (x : Drive). capacity x.lchs ≤ drive.sectors) one (bounded d'.lchs fits) in
    elim (basic_access-Reaches send_disk_op false d command regs s w
      (omega (arith, within, small))) [
        | inl refused ↦ inl refused.1
        | inr sent ↦ inr (sent.3, omega (arith, sent.4.in_drive, within))
      ]
  where
    bounded :
        {P : Type 0} (chs : Chs)
        → ((P × (tracks chs * chs.spt ≤ drive.sectors))
            ⊎ ((tracks chs ≤ tracks drive.pchs) × (chs.spt ≡ drive.pchs.spt)))
        → capacity chs ≤ drive.sectors
    bounded chs (inl (p, l)) = l
    bounded chs (inr (l, e)) =
        omega (arith, mul-le-mul_right chs.spt l, ap (λ n. tracks drive.pchs * n) e, cap)

-- What service 8 says of a hard disk with 2 to 1024 cylinders, up to 256 heads and up to 63 sectors for
-- each: its last head and sector, and the last cylinder but one; an access to that place by service 2
-- is not refused.
pub disk_1308-last :
    {W : Type 0} (send_disk_op : DiskOp → W → ℕ × ℕ × W) (emulated : Bool) (drive : Drive)
    (table2 : ℕ) (regs : Registers) (s : Disks) (w : W)
    → extstart_hd ≤ regs.dl
    → regs.dl < extstart_cd
    → let chs = fill_lchs emulated drive s in
      2 ≤ chs.cylinders
      → chs.cylinders ≤ 1024
      → 0 < chs.heads
      → chs.heads ≤ 256
      → 0 < chs.spt
      → chs.spt ≤ 63
      → let r = (disk_1308 send_disk_op emulated drive table2 regs s w).0 in
        (cylinder_of r + 2 ≡ chs.cylinders)
        × (r.dh + 1 ≡ chs.heads)
        × (sector_of r ≡ chs.spt)
        × ((bad_count (record r { al = 1 }) || bad_sector chs r) ≡ false)
unfolding disk_1308 disk_ret
disk_1308-last {W = W} send_disk_op emulated drive table2 regs s w hd cd cl ch hl hh sl sh =
    subst Last
      (sym (
        if_false (ltb regs.dl extstart_hd) _ _ (ground (arith, hd))
        ∙ if_true (ltb regs.dl extstart_cd) _ _ (ground (arith, cd))))
      (omega (arith, cl, ch), omega (arith, hl, hh), omega (arith, sh), inside)
  where
    chs : Chs
    chs = fill_lchs emulated drive s

    Last : Outcome W → Type 0
    Last (r, s', w') =
        (cylinder_of r + 2 ≡ chs.cylinders)
        × (r.dh + 1 ≡ chs.heads)
        × (sector_of r ≡ chs.spt)
        × ((bad_count (record r { al = 1 }) || bad_sector chs r) ≡ false)

    inside :
        (bad_count (record regs {
          al = 1;
          ch = minus_one (minus_one chs.cylinders) % 256;
          cl = minus_one (minus_one chs.cylinders) / 256 % 4 * 64 + chs.spt % 64;
          dh = minus_one chs.heads % 256;
        })
          || bad_sector chs (record regs {
            ch = minus_one (minus_one chs.cylinders) % 256;
            cl = minus_one (minus_one chs.cylinders) / 256 % 4 * 64 + chs.spt % 64;
            dh = minus_one chs.heads % 256;
          }))
        ≡ false
    inside = ground (arith, cl, ch, hl, hh, sl, sh)
