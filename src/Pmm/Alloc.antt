-- ===== src/Pmm/Alloc.antt =====
-- bios/seabios/src/pmm.c: tracked allocations.
use coremu.Common.{
  ℕ, ◌-◌, Bool, true, false, not, Option, none, some, List, [], ◌∷◌, leb, ◌==◌, if◌then◌else◌,
}
use coremu.Pmm.{
  ZoneName, zone_tmp_low, zone_low, zone_tmp_high, PmmAlloc, Pmm, set_zone, sub32, align_up,
  malloc_min_align, sizeof_pmmalloc, zone_malloc, zone_free,
}
use coremu.Pmm.Ebda.{zonelow_expand}

-- `zone_malloc` of a zone of the state.
abbrev pub malloc_in : ZoneName → ℕ → ℕ → Pmm → ℕ × Pmm
malloc_in n size align s = let (p, z) = zone_malloc (s.zones n) size align in (p, set_zone n z s)

-- The record that will track a block: its address or 0, the end of its zone before, and the state. It
-- comes from the low temporary zone if the high one gave none.
abbrev pub low_info : Pmm → ℕ × ℕ × Pmm
low_info s =
    let (info, s') = malloc_in zone_tmp_low sizeof_pmmalloc malloc_min_align s in
    (info, (s.zones zone_tmp_low).cur, s')

abbrev pub info_or_low : ℕ → ℕ × Pmm → ℕ × ℕ × Pmm
info_or_low oldallocdata (info, s) = if info == 0 then low_info s else (info, oldallocdata, s)

unfoldable pub new_info : Pmm → ℕ × ℕ × Pmm
unfolding zone_malloc
new_info s =
    info_or_low (s.zones zone_tmp_high).cur
      (malloc_in zone_tmp_high sizeof_pmmalloc malloc_min_align s)

-- The growth of the low zone, if the block is to lie there.
abbrev pub expand : List (Pmm → Pmm) → ZoneName → ℕ → ℕ → Pmm → Pmm
expand waits zone_low size align s = zonelow_expand waits size align s
expand waits zone size align s = s

-- The part of `pmm_malloc` behind the allocation of the block at `p`.
abbrev pub track : ℕ → ℕ → ℕ → ℕ → ℕ × Pmm → ℕ × Pmm
track info oldallocdata handle olddata (p, s) =
    if p == 0 then (0, (zone_free info oldallocdata s).1) else (
      p,
      record s {
        pmm_allocs =
            record {
              address = info;
              data_ = p;
              olddata = olddata;
              handle = handle;
              oldallocdata = oldallocdata;
            }
            ∷ s.pmm_allocs;
      },
    )

unfoldable pub malloc_tracked : ℕ → ℕ → ZoneName → ℕ → ℕ → ℕ → Pmm → ℕ × Pmm
unfolding zone_malloc zone_free
malloc_tracked info oldallocdata zone handle size align s =
    track info oldallocdata handle (s.zones zone).cur (malloc_in zone size align s)

-- The part behind the allocation of `info`.
abbrev pub malloc_with : List (Pmm → Pmm) → ZoneName → ℕ → ℕ → ℕ → ℕ × ℕ × Pmm → ℕ × Pmm
malloc_with waits zone handle size align (info, oldallocdata, s) =
    if info == 0
    then (0, s)
    else malloc_tracked info oldallocdata zone handle size align (expand waits zone size align s)

unfoldable pub pmm_malloc : List (Pmm → Pmm) → ZoneName → ℕ → ℕ → ℕ → Pmm → ℕ × Pmm
unfolding new_info zonelow_expand malloc_tracked
pmm_malloc waits zone handle size align s = malloc_with waits zone handle size align (new_info s)

-- The loop of `pmm_free_data`.
abbrev pub patch : ℕ → ℕ → List PmmAlloc → List PmmAlloc
patch p olddata [] = []
patch p olddata (a ∷ as') =
    let rest = patch p olddata as' in
    if a.olddata == p
    then record a { olddata = olddata } ∷ as'
    else if a.oldallocdata == p
    then record a { oldallocdata = olddata } ∷ as'
    else a ∷ rest

-- The part of `pmm_free_data` behind its call of `zone_free`.
abbrev pub free_or_patch : ℕ → ℕ → Bool × Pmm → Pmm
free_or_patch p olddata (freed, s) =
    if freed then s else record s { pmm_allocs = patch p olddata s.pmm_allocs }

unfoldable pub pmm_free_data : ℕ → ℕ → Pmm → Pmm
unfolding zone_free
pmm_free_data p olddata s = free_or_patch p olddata (zone_free p olddata s)

-- The record of a block, and the list without it.
abbrev pub unlink : ℕ → List PmmAlloc → Option (PmmAlloc × List PmmAlloc)
unlink p [] = none
unlink p (a ∷ as') =
    let rest = unlink p as' in
    if a.data_ == p
    then some (a, as')
    else elim rest [ none ↦ none | some (b, bs) ↦ some (b, a ∷ bs) ]

-- What `pmm_free` does with the record that it found.
abbrev pub free_unlinked : ℕ → Pmm → Option (PmmAlloc × List PmmAlloc) → Bool × Pmm
free_unlinked p s none = (false, s)
free_unlinked p s (some (a, rest)) = (
  true,
  pmm_free_data a.address a.oldallocdata
      (pmm_free_data p a.olddata (record s { pmm_allocs = rest })),
)

-- Whether it returned 0, and the state afterwards.
unfoldable pub pmm_free : ℕ → Pmm → Bool × Pmm
unfolding pmm_free_data
pmm_free p s = free_unlinked p s (unlink p s.pmm_allocs)

abbrev pub is_tmp : ZoneName → Bool
is_tmp zone_tmp_high = true
is_tmp zone_tmp_low = true
is_tmp _ = false

unfoldable pub pmm_getspace : ZoneName → Pmm → ℕ
pmm_getspace zone s =
    let space = sub32 (s.zones zone).cur (s.zones zone).bottom in
    let reserve = align_up sizeof_pmmalloc malloc_min_align in
    if not (is_tmp zone) then space else if leb space reserve then 0 else space - reserve

-- The loop of `pmm_find`.
unfoldable pub find_handle : ℕ → List PmmAlloc → ℕ
find_handle handle [] = 0
find_handle handle (a ∷ as') =
    let rest = find_handle handle as' in if a.handle == handle then a.data_ else rest

unfoldable pub pmm_find : ℕ → Pmm → ℕ
unfolding find_handle
pmm_find handle s = find_handle handle s.pmm_allocs
