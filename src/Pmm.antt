-- ===== src/Pmm.antt =====
-- bios/seabios/src/pmm.c: zones of memory, the blocks in them and the records that track the blocks.
pub mod Ebda
pub mod Expand
pub mod Alloc
pub mod Setup
pub mod Start
pub mod Calls
pub mod Zones
pub mod Header
pub mod Find
pub mod Undo
mod Tests
use coremu.Common.{
  ℕ, zero, suc, ◌+◌, ◌-◌, ◌*◌, ◌/◌, ◌%◌, ◌^◌, Bool, true, false, not, ◌&&◌, ◌||◌, Option, none,
  some, List, [], ◌∷◌, ltb, leb, ◌==◌, if◌then◌else◌,
}

-- `struct zone_s`; the fields are u32.
pub record Zone : Type 0 where
  pub top : ℕ
  pub bottom : ℕ
  pub cur : ℕ

-- The zones, by the names of the variables, in the order of `Zones`.
pub data ZoneName : Type 0 where
  zone_tmp_low : ZoneName
  zone_low : ZoneName
  zone_fseg : ZoneName
  zone_tmp_high : ZoneName
  zone_high : ZoneName

-- `struct pmmalloc_s` and its address. Its field `next` is the order of the list.
pub record PmmAlloc : Type 0 where
  pub address : ℕ
  pub data_ : ℕ
  pub olddata : ℕ
  pub handle : ℕ
  pub oldallocdata : ℕ

-- The variables of the file, the two fields of the BIOS data area that it uses, and the memory.
pub record Pmm : Type 0 where
  pub zones : ZoneName → Zone
  pub pmm_allocs : List PmmAlloc
  pub mem_size_kb : ℕ  -- u16
  pub ebda_seg : ℕ  -- u16
  pub bytes : ℕ → ℕ

abbrev pub position : ZoneName → ℕ
position zone_tmp_low = 0
position zone_low = 1
position zone_fseg = 2
position zone_tmp_high = 3
position zone_high = 4

abbrev pub set_zone : ZoneName → Zone → Pmm → Pmm
set_zone n z s = record s { zones = λ m. if position m == position n then z else s.zones m }

-- Differences of u32 numbers wrap around.
abbrev pub sub32 : ℕ → ℕ → ℕ
sub32 a b = (a + (2 ^ 32 - b)) % 2 ^ 32

-- `ALIGN_DOWN` and `ALIGN` for an alignment that is a power of two, as all of them are.
abbrev pub align_down : ℕ → ℕ → ℕ
align_down x a = x - x % a

abbrev pub align_up : ℕ → ℕ → ℕ
align_up x a = align_down ((x + (a - 1)) % 2 ^ 32) a

abbrev pub malloc_min_align : ℕ
malloc_min_align = 16

-- `sizeof(struct pmmalloc_s)`: five words of 32 bits.
abbrev pub sizeof_pmmalloc : ℕ
sizeof_pmmalloc = 20

-- The position that `zone_malloc` tries.
abbrev pub newpos : Zone → ℕ → ℕ → ℕ
newpos z size align = align_down (sub32 z.cur size) align

-- The address, or 0, and the zone afterwards.
unfoldable pub zone_malloc : Zone → ℕ → ℕ → ℕ × Zone
zone_malloc z size align =
    if ltb (newpos z size align) z.bottom || ltb z.cur (newpos z size align)
    then (0, z)
    else (newpos z size align, record z { cur = newpos z size align })

abbrev pub holds : Zone → ℕ → Bool
holds z p = leb z.cur p && ltb p z.top

-- The loop over `Zones`.
abbrev pub find_in : List ZoneName → ℕ → Pmm → Option ZoneName
find_in [] p s = none
find_in (n ∷ ns) p s = let rest = find_in ns p s in if holds (s.zones n) p then some n else rest

abbrev pub zone_names : List ZoneName
zone_names = zone_tmp_low ∷ zone_low ∷ zone_fseg ∷ zone_tmp_high ∷ zone_high ∷ []

unfoldable pub zone_find : ℕ → Pmm → Option ZoneName
zone_find p s = find_in zone_names p s

-- The zone goes back to `olddata` if `p` is its last block.
abbrev pub free_in : ℕ → ℕ → Pmm → Option ZoneName → Bool × Pmm
free_in p olddata s none = (false, s)
free_in p olddata s (some n) =
    if p == 0 || not ((s.zones n).cur == p)
    then (false, s)
    else (true, set_zone n (record (s.zones n) { cur = olddata }) s)

-- Whether it returned 0, and the state afterwards.
unfoldable pub zone_free : ℕ → ℕ → Pmm → Bool × Pmm
unfolding zone_find
zone_free p olddata s = free_in p olddata s (zone_find p s)
