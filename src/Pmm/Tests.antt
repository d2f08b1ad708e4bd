-- ===== src/Pmm/Tests.antt =====
-- bios/seabios/src/pmm.c: blocks taken and given back.
use coremu.Common.{
  ℕ, zero, suc, ◌+◌, ◌-◌, ◌%◌, ◌≤◌, ◌<◌, ◌≡◌, ◌≢◌, ◌⊎◌, refl, List, [], ◌∷◌, arith, ◌==◌,
  if◌then◌else◌,
}
use coremu.MemMap.{
  Area, area, add_e820, find_high_area, scan_high, find, overlap, insert_new, insert_e820,
}
use coremu.Pmm.{zone_low, zone_tmp_high, zone_high, Pmm, zone_malloc, zone_find}
use coremu.Pmm.Ebda.{relocate_ebda, move_to, move_ebda, zonelow_expand}
use coremu.Pmm.Alloc.{
  new_info, malloc_tracked, pmm_malloc, pmm_free_data, pmm_free, pmm_getspace, pmm_find,
  find_handle,
}
use coremu.Pmm.Setup.{fresh, setup_low, setup_high, malloc_setup, malloc_finalize}
use coremu.Pmm.Start.{malloc_setup-IsApart}
use coremu.Pmm.Calls.{
  handle_pmm00, handle_pmm01, handle_pmm02, handle_pmm, space_request, block_request,
}
use coremu.Pmm.Zones.{zone_malloc-fits}
use coremu.Pmm.Find.{IsApart}
use coremu.Pmm.Undo.{Outcome, pmm_malloc-Outcome}
use coremu.Checksum.{checksum_of}
use coremu.Pmm.Header.{header_bytes, initial_header, pmm_setup, pmm_finalize}

abbrev memory_map : List Area
memory_map = area 0 0x9fc00 1 ∷ area 0xf0000 0x10000 2 ∷ area 0x100000 0x7f00000 1 ∷ []

-- The EBDA has one kilobyte, at 9fc00.
abbrev powered : Pmm
powered = record {
  zones = λ n. fresh 0 0;
  pmm_allocs = [];
  mem_size_kb = 639;
  ebda_seg = 0x9fc0;
  bytes = λ x. if x == 0x9fc00 then 1 else 0;
}

-- `malloc_setup` with the tables at fc000.
abbrev set_up : Pmm
unfolding malloc_setup setup_low setup_high find_high_area scan_high
set_up = (malloc_setup 0xfc000 0xe0000 memory_map powered).0

setup_test :
    (set_up.zones zone_high ≡ fresh 0x7ff0000 0x8000000)
    × (set_up.zones zone_tmp_high ≡ fresh 0x100000 0x7ff0000)
unfolding set_up
setup_test = (refl, refl)

set_up-IsApart : IsApart set_up
unfolding set_up
set_up-IsApart =
    malloc_setup-IsApart 0xfc000 0xe0000 memory_map powered (omega arith) (omega arith) refl
      (omega arith) (omega arith)

-- A block of 100 bytes, its record, and both given back.
malloc_test :
    let (p, s) = pmm_malloc [] zone_high 7 100 16 set_up in
    (p ≡ 0x7ffff90)
    × ((s.zones zone_tmp_high).cur ≡ 0x7feffe0)
    × (pmm_find 7 s ≡ 0x7ffff90)
    × (((pmm_free 0x7ffff90 s).1.zones zone_high).cur ≡ 0x8000000)
unfolding set_up pmm_malloc new_info malloc_tracked pmm_free pmm_free_data pmm_find find_handle
    zone_find
malloc_test = (refl, refl, refl, refl)

-- Two blocks that are given back in the order in which they were taken.
order_test :
    let (p, s) = pmm_malloc [] zone_high 1 32 16 set_up in
    let (q, t) = pmm_malloc [] zone_high 2 32 16 s in
    let u = (pmm_free p t).1 in
    ((u.zones zone_high).cur ≡ q)
    × (((pmm_free q u).1.zones zone_high).cur ≡ 0x8000000)
    × (((pmm_free q u).1.zones zone_tmp_high).cur ≡ 0x7ff0000)
unfolding set_up pmm_malloc new_info malloc_tracked pmm_free pmm_free_data zone_find
order_test = (refl, refl, refl)

abbrev request : ℕ → ℕ → ℕ → ℕ
request length flags zero = 0
request length flags (suc zero) = length
request length flags (suc (suc (suc zero))) = 9
request length flags (suc (suc (suc (suc (suc zero))))) = flags
request length flags _ = 0

calls_test :
    ((handle_pmm [] (request 0 2) set_up).0 ≡ 0x7ff0000 - 0x100000 - 32)
    × ((handle_pmm [] (request 0 9) set_up).0 ≡ 0)
    × ((handle_pmm [] (request 6 6) set_up).0 ≡ 0x7feff80)
    × ((handle_pmm [] (λ i. 1) set_up).0 ≡ 0)
    × ((handle_pmm [] (λ i. 2) set_up).0 ≡ 1)
    × ((handle_pmm [] (λ i. 3) set_up).0 ≡ 0xffffffff)
unfolding set_up handle_pmm handle_pmm00 handle_pmm01 handle_pmm02 space_request block_request
    pmm_getspace pmm_malloc new_info malloc_tracked pmm_find find_handle pmm_free
calls_test = (refl, refl, refl, refl, refl, refl)

-- The low zone grows by two kilobytes below the EBDA.
expand_test :
    let s = zonelow_expand [] 1024 16 set_up in
    (s.ebda_seg ≡ 0x9f80)
    × (s.mem_size_kb ≡ 638)
    × ((s.zones zone_low).bottom ≡ 0x9fc00)
    × (s.bytes 0x9f800 ≡ 1)
unfolding set_up zonelow_expand move_ebda move_to relocate_ebda
expand_test = (refl, refl, refl, refl)

finalize_test : (malloc_finalize [] set_up).1 ≡ area 0x9fc00 0x400 2 ∷ area 0x7ff0000 0x10000 1 ∷ []
unfolding set_up malloc_finalize add_e820 find overlap insert_new insert_e820
finalize_test = refl

header_test : checksum_of (header_bytes (pmm_setup 0xfe000 initial_header)) ≡ 0
unfolding pmm_setup checksum_of
header_test = refl

finalized_test : (pmm_finalize (pmm_setup 0xfe000 initial_header)).signature ≡ 0
unfolding pmm_setup pmm_finalize
finalized_test = refl

malloc_setup-IsApart_example : IsApart (malloc_setup 0xfc000 0xe0000 memory_map powered).0
unfolding find_high_area scan_high
malloc_setup-IsApart_example =
    malloc_setup-IsApart 0xfc000 0xe0000 memory_map powered {e = area 0x100000 0x7f00000 1}
      (omega arith) (omega arith) refl (omega arith) (omega arith)

pmm_malloc-Outcome_example :
    Outcome zone_high 100 16 set_up (pmm_malloc [] zone_high 7 100 16 set_up)
pmm_malloc-Outcome_example =
    pmm_malloc-Outcome [] zone_high 7 100 16 set_up-IsApart (λ e. high_not_low e) (omega arith)
      (omega arith) (omega arith) (omega arith)
  where
    high_not_low : zone_high ≢ zone_low
    high_not_low e = cc

zone_malloc-fits_example :
    ((zone_malloc (fresh 0x1000 0x2008) 24 16 ≡ (0, fresh 0x1000 0x2008))
      × ((q : ℕ) → q % 16 ≡ 0 → 0x1000 ≤ q → 0x2008 < q + 24))
    ⊎ ((p : ℕ) × (zone_malloc (fresh 0x1000 0x2008) 24 16
          ≡ (p, record (fresh 0x1000 0x2008) { cur = p }))
        × (p % 16 ≡ 0)
        × (0x1000 ≤ p)
        × (p + 24 ≤ 0x2008)
        × ((q : ℕ) → q % 16 ≡ 0 → q + 24 ≤ 0x2008 → q ≤ p))
zone_malloc-fits_example =
    zone_malloc-fits {z = fresh 0x1000 0x2008} 24 16
      (record { low = omega arith; high = omega arith; word = omega arith }) (omega arith)
      (omega arith) (omega arith)
