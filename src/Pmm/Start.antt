-- ===== src/Pmm/Start.antt =====
-- bios/seabios/src/pmm.c, bios/seabios/src/memmap.c: the zones that malloc_setup makes.
use coremu.Common.{
  ℕ, ◌+◌, ◌^◌, ◌≤◌, ◌<◌, ◌≡◌, ◌⊎◌, sym, ◌∙◌, subst, Option, some, List, ltb, ==_iff, if◌then◌else◌,
  inr, arith,
}
use coremu.MemMap.{Area, find_high_area}
use coremu.MemMap.High.{find_high_area-IsHigh}
use coremu.Pmm.{
  ZoneName, zone_tmp_low, zone_low, zone_fseg, zone_tmp_high, zone_high, Pmm, position,
}
use coremu.Pmm.Zones.{IsZone}
use coremu.Pmm.Find.{IsApart, position_inj}
use coremu.Pmm.Setup.{setup_low, setup_high, high_zones, malloc_setup}

module _ (table code : ℕ) (e820 : List Area) (e : Area) (s : Pmm) (low : 0xf0000 ≤ table)
    (fseg : table + 8192 ≤ 0x100000) (above : 0x100000 ≤ e.start) (room : 65552 ≤ e.size)
    (word : e.start + e.size + 16 ≤ 2 ^ 32) where
  made : Pmm
  made = (setup_high e e820 (setup_low table code s)).0

  made-IsZone : (n : ZoneName) → IsZone (made.zones n)
  unfolding made setup_low setup_high
  made-IsZone zone_tmp_low = record { low = omega arith; high = omega arith; word = omega arith }
  made-IsZone zone_low = record { low = omega arith; high = omega arith; word = omega arith }
  made-IsZone zone_fseg = record {
    low = omega (arith, fseg);
    high = omega arith;
    word = omega (arith, fseg);
  }
  made-IsZone zone_tmp_high = record {
    low = omega (arith, above, room, word);
    high = omega arith;
    word = omega (arith, room, word);
  }
  made-IsZone zone_high = record {
    low = omega (arith, above, room, word);
    high = omega arith;
    word = omega (arith, room, word);
  }

  made-not_null : (n : ZoneName) → ((made.zones n).top ≡ 0) ⊎ (0 < (made.zones n).bottom)
  unfolding made setup_low setup_high
  made-not_null zone_tmp_low = inr (omega arith)
  made-not_null zone_low = inr (omega arith)
  made-not_null zone_fseg = inr (omega (arith, low))
  made-not_null zone_tmp_high = inr (omega (arith, above, room, word))
  made-not_null zone_high = inr (omega (arith, above, room, word))

  -- The zone that an address can lie in.
  band : ℕ → ℕ
  band p =
      if ltb p 0xa0000
      then 0
      else if ltb p 0xf0000
      then 1
      else if ltb p 0x100000
      then 2
      else if ltb p (made.zones zone_high).bottom
      then 3
      else 4

  band_lem :
      (n : ZoneName) (p : ℕ)
      → (made.zones n).bottom ≤ p
      → p < (made.zones n).top
      → band p ≡ position n
  unfolding band made setup_low setup_high
  band_lem zone_tmp_low p l h = ground (arith, l, h)
  band_lem zone_low p l h = absurd (omega (arith, l, h))
  band_lem zone_fseg p l h = ground (arith, l, h, low, fseg)
  band_lem zone_tmp_high p l h = ground (arith, l, h, above, room, word)
  band_lem zone_high p l h = ground (arith, l, h, above, room, word)

  made-IsApart : IsApart made
  made-IsApart = record {
    each = made-IsZone;
    not_null = made-not_null;
    alone = λ m n p a b c d.
        position_inj m n
          ((==_iff (position m) (position n)).1 (sym (band_lem m p a b) ∙ band_lem n p c d));
  }

-- If the space for the BIOS tables lies in the f segment and the area of memory that is found lies
-- between 1 MB and the last 16 bytes below 4 GB, then after malloc_setup all zones are well-formed and
-- no address lies in two of them.
pub malloc_setup-IsApart :
    (table code : ℕ) (e820 : List Area) (s : Pmm) {e : Area}
    → 0xf0000 ≤ table
    → table + 8192 ≤ 0x100000
    → find_high_area 65552 e820 ≡ some e
    → 0x100000 ≤ e.start
    → e.start + e.size + 16 ≤ 2 ^ 32
    → IsApart (malloc_setup table code e820 s).0
unfolding malloc_setup made
malloc_setup-IsApart table code e820 s {e} low fseg found above word =
    subst (λ (o : Option Area). IsApart (high_zones e820 (setup_low table code s) o).0) (sym found)
      (made-IsApart table code e820 e s low fseg above
        (find_high_area-IsHigh 65552 e820 found).large word)
