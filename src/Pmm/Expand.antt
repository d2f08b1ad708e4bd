-- ===== src/Pmm/Expand.antt =====
-- bios/seabios/src/pmm.c: what the growth of the low zone does to the zone and to the EBDA.
use coremu.Common.{
  ℕ, ◌+◌, ◌*◌, ◌/◌, ◌%◌, ◌^◌, ◌≤◌, ◌<◌, ◌≡◌, ◌≢◌, ◌⊎◌, refl, sym, ap, ◌∙◌, subst, Bool, not, ◌&&◌,
  some, [], true, if◌then◌else◌, ltb, leb, ◌==◌, ==_iff, if_true, if_false, arith,
}
use native.Mathlib.Nat.{mod-lt, mod-le}
use coremu.Pmm.{Zone, zone_low, set_zone, Pmm, sub32, align_down, newpos}
use coremu.Pmm.Ebda.{
  build_ebda_minimum, moved, relocate_ebda, grow, move_to, move_ebda, zonelow_expand,
}

-- The end of the extended BIOS data area.
abbrev pub ebda_end : Pmm → ℕ
ebda_end s = s.ebda_seg * 16 + s.bytes (s.ebda_seg * 16) * 1024

-- After a move there is room for the block in the low zone, conventional memory ends where the EBDA
-- starts, and the EBDA holds what it held.
pub record IsGrown (size align : ℕ) (s s' : Pmm) : Type 0 where
  pub fits : (s'.zones zone_low).bottom ≤ newpos (s'.zones zone_low) size align
  pub below : newpos (s'.zones zone_low) size align ≤ (s'.zones zone_low).cur
  pub ends : s'.mem_size_kb * 1024 ≡ s'.ebda_seg * 16
  pub same :
      (x : ℕ)
      → x < s.bytes (s.ebda_seg * 16) * 1024
      → s'.bytes (s'.ebda_seg * 16 + x) ≡ s.bytes (s.ebda_seg * 16 + x)

-- Where the block is to end: at the end of the free space when the EBDA stands right below the zone, else
-- at the end of the EBDA.
abbrev pub top_of : Pmm → ℕ
top_of s = if ebda_end s == (s.zones zone_low).bottom then (s.zones zone_low).cur else ebda_end s

abbrev pub has_room : ℕ → ℕ → Pmm → Bool
has_room size align s =
    leb (s.zones zone_low).bottom (newpos (s.zones zone_low) size align)
    && leb (newpos (s.zones zone_low) size align) (s.zones zone_low).cur

-- Why the low zone does not grow: it has room, other code has taken conventional memory below the EBDA,
-- or less than the block, the EBDA, an alignment and two kilobytes are left above build_ebda_minimum.
pub Stays : ℕ → ℕ → ℕ → Pmm → Type 0
Stays size align top s =
    (has_room size align s ≡ true)
    ⊎ ((s.ebda_seg * 16 ≢ s.mem_size_kb * 1024)
        ⊎ (top < build_ebda_minimum + size + s.bytes (s.ebda_seg * 16) * 1024 + 2048 + align))

module _ (size align oldpos : ℕ) (s : Pmm) (hs : size ≤ oldpos) (ho : oldpos ≤ 0xa0000)
    (ha : 0 < align) where
  pos : ℕ
  pos = s.ebda_seg * 16

  kb : ℕ
  kb = s.bytes pos

  target : ℕ
  target = align_down (sub32 oldpos size) align

  bottom : ℕ
  bottom = align_down target 1024

  newebda : ℕ
  newebda = align_down (sub32 bottom (kb * 1024)) 1024

  grown : Pmm
  grown =
      set_zone zone_low (record (s.zones zone_low) { cur = oldpos; bottom = bottom })
        (record s {
          bytes = moved newebda pos (kb * 1024) s.bytes;
          mem_size_kb = newebda / 1024 % 2 ^ 16;
          ebda_seg = newebda / 16 % 2 ^ 16;
        })

-- The positions wrap around for a block that is longer than the zone's end is high.
wrapped :
    (cur size align kb : ℕ)
    → cur < size
    → size < 2 ^ 31
    → cur ≤ 0xa0000
    → 0 < align
    → align ≤ 2 ^ 30
    → kb < 256
    → let t = align_down (sub32 cur size) align in
      (cur < align_down t 1024)
      × (cur < t)
      × (0x90000 ≤ align_down (sub32 (align_down t 1024) (kb * 1024)) 1024)
wrapped cur size align kb l hs hc ha hb hk =
    (omega (arith, far), omega (arith, far), omega (arith, far, small, hk))
  where
    t : ℕ
    t = align_down (sub32 cur size) align

    far : 2 ^ 30 ≤ t
    far = omega (arith, l, hs, hc, hb, mod-lt (sub32 cur size) ha)

    small : t < 2 ^ 32
    small = omega (arith, mod-le (sub32 cur size) align)

-- A block that is longer than the end of the low zone is high, with the EBDA directly below the zone
-- and at the end of conventional memory: zonelow_expand does not see that there is no room. It moves
-- the EBDA up, and leaves the zone with its bottom above the end of its free space.
zonelow_expand-wraps :
    (size align : ℕ) (s : Pmm)
    → (s.zones zone_low).cur < size
    → size < 2 ^ 31
    → (s.zones zone_low).cur ≤ 0xa0000
    → 0 < align
    → align ≤ 2 ^ 30
    → s.bytes (s.ebda_seg * 16) < 256
    → ebda_end s ≡ (s.zones zone_low).bottom
    → s.ebda_seg * 16 ≡ s.mem_size_kb * 1024
    → let z = (zonelow_expand [] size align s).zones zone_low in
      (z.cur ≡ (s.zones zone_low).cur) × (z.cur < z.bottom)
unfolding zonelow_expand move_ebda move_to relocate_ebda
zonelow_expand-wraps size align s l hs hc ha hb hk he hm =
    subst (λ (z : Zone). (z.cur ≡ cur) × (z.cur < z.bottom))
      (ap (λ (u : Pmm). u.zones zone_low) (sym moves))
      (refl, (wrapped cur size align kb l hs hc ha hb hk).0)
  where
    cur : ℕ
    cur = (s.zones zone_low).cur

    kb : ℕ
    kb = s.bytes (s.ebda_seg * 16)

    target' : ℕ
    target' = newpos (s.zones zone_low) size align

    newebda' : ℕ
    newebda' = align_down (sub32 (align_down target' 1024) (kb * 1024)) 1024

    facts : (cur < align_down target' 1024) × (cur < target') × (0x90000 ≤ newebda')
    facts = wrapped cur size align kb l hs hc ha hb hk

    moves :
        zonelow_expand [] size align s
        ≡ grow cur
            (align_down target' 1024)
            (some (record s {
              bytes = moved newebda' (s.ebda_seg * 16) (kb * 1024) s.bytes;
              mem_size_kb = newebda' / 1024 % 2 ^ 16;
              ebda_seg = newebda' / 16 % 2 ^ 16;
            }))
            s
    moves =
        if_false (leb (s.zones zone_low).bottom target' && leb target' cur) _ _
          (ground (arith, facts))
        ∙ (if_true (ebda_end s == (s.zones zone_low).bottom) _ _ ((==_iff _ _).1 he)
            ∙ (if_false (ltb newebda' build_ebda_minimum) _ _ (ground (arith, facts))
                ∙ ap (λ o. grow cur (align_down target' 1024) o s)
                    (if_false (not (s.ebda_seg * 16 == s.mem_size_kb * 1024)) _ _
                      (ground (arith, hm)))))
